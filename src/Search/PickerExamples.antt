-- ===== src/Search/PickerExamples.antt =====
-- The theorems of the move picker at a node with four moves, and at a position.
use rfish.Board.Legality.{contains_move, legal, is_own, piece_may, keeps_king}
use rfish.Board.Attacks.{piece_attacks}
use rfish.Board.Position.Threats.{threats_by}
use rfish.Board.Piece.{color}
use rfish.Board.Move.{from_square, to_square, move_type}
use rfish.Search.MoveSort.Tally.{unit_if}
use rfish.Search.MovePicker.Drain.{count}
use rfish.Prelude.{◌≤◌}
use rfish.Prelude.{◌+◌, ◌≡◌, refl, arith, true, false, not, ◌||◌, if◌then◌else◌, ◌==◌, inl, inr}
use rfish.Prelude.{Option, some, List, [], ◌∷◌, length, entries}
use rfish.Prelude.Int.{pos, negsuc}
use rfish.Board.Move.{Move, no_move, is_ok}
use rfish.Search.MoveSort.{full_insertion_sort, partial_insertion_sort}
use rfish.Search.MovePicker.Count.{count_by}
use rfish.Board.MoveGen.{is_captures, is_quiets}
use rfish.Board.Position.{Position, blank_state}
use rfish.Search.MovePicker.{
  Node, MovePicker, MoveBuf, new, next_move, skip_quiet_moves, select_good_quiet_walk,
  select_good_quiet_sorted, Stage,
}
use rfish.Search.MovePicker.Legal.{IsNode, drain-generate_legal}
use rfish.Board.MoveGen.Legal.{generate_into, generate_legal}
use rfish.Board.Attacks.{walked}
use rfish.Board.Piece.{white, piece_type}
use rfish.Board.Square.{no_square}
use rfish.Board.Placement.{Placement, blank, put_piece, king_square}
use rfish.Search.MovePicker.Pending.{
  pending, HasRoom, IsReady, main, IsCut, ReadyAt, moves, next_of,
}
use rfish.Search.MovePicker.Refinement.{Pops, next_move-Pops}
use rfish.Search.MovePicker.Drain.{drain, SameMoves, drain-pending}
use rfish.Search.MovePicker.Complete.{generated, drain-new}
use rfish.Search.MovePicker.EarlyStop.{queue_after, select_good_quiet_sorted-walk}
use rfish.Search.MovePicker.Skipping.{quieting, captures_left, skip_quiet_moves_lem}

-- Captures 700 and 701, of which the second loses material; quiets 702 and 703.
abbrev node : Node
node = record {
  in_check = false;
  legal = λ m. true;
  is_capture_stage = λ m. m == 700 || m == 701;
  see_ge = λ m v. not (m == 701);
  generate = λ kind.
      if is_captures kind then 700 ∷ 701 ∷ [] else if is_quiets kind then 702 ∷ 703 ∷ [] else [];
  score = λ kind m. if m == 703 then negsuc 20000 else pos m;
}

node-HasRoom : HasRoom node
node-HasRoom = record { main = omega arith; check = omega arith }

abbrev fresh : MovePicker
fresh = new node 702 (pos 5)

drain-new_example :
    (yielded : List Move) × (drain (length (generated node (pos 5)) + 2) node fresh []
      ≡ some yielded)
    × SameMoves yielded (generated node (pos 5))
    × ((if true then (next_of yielded).0 else 702) ≡ 702)
unfolding new generated count_by
drain-new_example = drain-new node 702 (pos 5) node-HasRoom refl (inr (refl, refl))

drain-pending_example : drain 6 node fresh [] ≡ some (702 ∷ 700 ∷ 701 ∷ 703 ∷ [])
unfolding new pending ReadyAt count_by full_insertion_sort partial_insertion_sort
drain-pending_example = drain-pending node node-HasRoom 6 fresh [] main refl (omega arith)

next_move-Pops_example : Pops node node-HasRoom fresh [] (next_move node fresh [])
unfolding new ReadyAt
next_move-Pops_example = next_move-Pops node node-HasRoom fresh [] main

-- In the quiets, with the losing capture deferred.
abbrev buffer : MoveBuf
buffer =
    record { mv = 701; score = pos 5 }
    ∷ record { mv = 700; score = pos 9 }
    ∷ record { mv = 702; score = pos 8 }
    ∷ record { mv = 703; score = negsuc 20000 }
    ∷ []

abbrev in_quiets : MovePicker
in_quiets = record {
  tt_move = no_move;
  threshold = pos 0;
  stage = Stage.good_quiet;
  first_stage = Stage.good_capture;
  depth = pos 5;
  skip_quiets = false;
  cur = 2;
  end_cur = 4;
  end_bad_captures = 1;
  end_bad_moves = 1;
}

select_good_quiet_sorted-walk_example :
    (found : Option Move) × (q : MovePicker) × (out : MoveBuf) × (q' : MovePicker)
    × (out' : MoveBuf) × (select_good_quiet_walk in_quiets buffer ≡ some (found, q, out))
    × (select_good_quiet_sorted in_quiets buffer ≡ some (found, q', out'))
    × (queue_after in_quiets q out ≡ queue_after in_quiets q' out')
unfolding IsCut entries
select_good_quiet_sorted-walk_example =
    select_good_quiet_sorted-walk in_quiets buffer refl (omega arith) (omega arith) (omega arith)
      (inl refl, (inr tt, tt))

skip_quiet_moves_lem_example :
    IsReady node (skip_quiet_moves in_quiets) buffer
    × (pending node (skip_quiet_moves in_quiets) buffer ≡ 701 ∷ [])
unfolding captures_left ReadyAt moves IsCut entries
skip_quiet_moves_lem_example = skip_quiet_moves_lem node in_quiets buffer quieting (record {
  kept = omega arith;
  passed = omega arith;
  inside = omega arith;
  running = inr (omega arith, refl, inr (refl, (inl refl, (inr tt, tt))));
})

-- White: king a1. Black: king h8.
abbrev two_kings : Placement
two_kings = put_piece 14 63 (put_piece 6 0 blank)

abbrev bare : Position
bare = record {
  placement = two_kings;
  castling_rights_mask = λ sq. 0;
  castling_rook_square = λ cr. no_square;
  castling_path = λ cr. 0;
  st = blank_state;
  prev = [];
  game_ply = 0;
  side_to_move = white;
  chess960 = false;
}

-- The king's three steps.
abbrev bare_node : Node
bare_node = record {
  in_check = false;
  legal = λ m. true;
  is_capture_stage = λ m. false;
  see_ge = λ m v. true;
  generate = λ kind. if is_quiets kind then 1 ∷ 8 ∷ 9 ∷ [] else [];
  score = λ kind m. pos m;
}

bare-IsNode : IsNode walked bare bare_node
unfolding generate_into put_piece king_square piece_type
bare-IsNode = inr (refl, refl, refl, refl)

bare_legal : legal walked bare 9 ≡ some true
unfolding legal is_ok move_type from_square to_square put_piece piece_type is_own piece_may
    piece_attacks keeps_king threats_by color
bare_legal = refl

single_steps : (m : Move) → count m (generated bare_node (pos 5)) ≤ 1
unfolding generated count_by
single_steps m = ground arith

drain-generate_legal_example :
    (yielded : List Move) × (listed : List Move) × (drain 5 bare_node (new bare_node 9 (pos 5)) []
      ≡ some yielded)
    × (generate_legal walked bare ≡ some listed)
    × SameMoves yielded listed
    × ((m : Move) → unit_if (contains_move listed m) ≡ count m yielded)
    × ((if true then (next_of yielded).0 else 9) ≡ 9)
unfolding generated count_by contains_move
drain-generate_legal_example =
    drain-generate_legal walked bare bare_node (pos 5) refl 9 bare-IsNode bare_legal
      (record { main = omega arith; check = omega arith }) refl single_steps (λ plain agreed. refl)
