-- ===== src/Board/PositionExamples.antt =====
-- The theorems of positions at a concrete one: a castling move, and a promotion that captures.
use rfish.Prelude.{
  ℕ, ◌+◌, ◌*◌, ◌≡◌, refl, arith, true, false, inl, inr, some, List, [], ◌∷◌, ◌==◌, if◌then◌else◌,
}
use rfish.Board.Piece.{Color, white, black, knight, queen, opponent, Piece, piece_type}
use rfish.Board.Piece as Piece
use rfish.Board.Square.{no_square}
use rfish.Board.Move.{
  Move, typed, move_type, from_square, to_square, promotion_type, castling, promotion,
}
use rfish.Prelude.{◌↔◌}
use rfish.Prelude.Int.{pos}
use rfish.Board.Position.Draws.{has_repeated, RepeatedAt, has_repeated-RepeatedAt}
use rfish.Board.Zobrist.{Tables, is_real}
use rfish.Board.Attacks.{walked}
use rfish.Board.Placement.{Placement, blank, put_piece, move_piece, king_square}
use rfish.Board.Placement.Contract.{
  IsPlacement, move_piece-IsPlacement, blank-IsPlacement, occurrences-blank, put_piece-IsPlacement,
}
use rfish.Board.Position.{Position, StateInfo, blank_state}
use rfish.Board.Position.Transition.Repetition.{Nearest, set_repetition-Nearest}
use rfish.Board.Position.Checks.Total.{HasKings}
use rfish.Board.Position.Moves.{placed, unplaced, captured, king_to, rook_to, capture_square}
use rfish.Board.Position.Moves.RoundTrip.{IsMove, unplaced-placed}
use rfish.Board.Position.State.Slots.{Few, Few-put}
use rfish.Board.Position.Transition.{
  do_move_checked, undo_move, do_null_move, undo_null_move, set_repetition,
}
use rfish.Board.Position.Transition.RoundTrip.{undo_move-do_move, undo_null_move-do_null_move}
use rfish.Board.Position.Transition.Keys.{HasKey, do_move-HasKey, do_null_move-HasKey}
use rfish.Board.Position.Setup.{position_key}

-- White: king e1, rook h1, pawn a7. Black: king e8, rook b8.
abbrev with_kings : Placement
with_kings = put_piece 14 60 (put_piece 6 4 blank)

abbrev with_rooks : Placement
with_rooks = put_piece 12 57 (put_piece 4 7 with_kings)

abbrev five_pieces : Placement
five_pieces = put_piece 1 48 with_rooks

with_kings-IsPlacement : IsPlacement with_kings
unfolding put_piece
with_kings-IsPlacement =
    put_piece-IsPlacement (put_piece 6 4 blank) 14 60
      (put_piece-IsPlacement blank 6 4 blank-IsPlacement refl (omega arith) refl) refl (omega arith)
      refl

five_pieces-IsPlacement : IsPlacement five_pieces
unfolding put_piece
five_pieces-IsPlacement =
    put_piece-IsPlacement with_rooks 1 48
      (put_piece-IsPlacement (put_piece 4 7 with_kings) 12 57
        (put_piece-IsPlacement with_kings 4 7 with_kings-IsPlacement refl (omega arith) refl) refl
        (omega arith) refl)
      refl (omega arith) refl

Few-blank : Few 27 blank
Few-blank pc real =
    let none_there = occurrences-blank 64 pc (λ e. ground (arith, real, e)) in
    omega (arith, none_there)

five_pieces-Few : Few 32 five_pieces
five_pieces-Few = Few-put 31 with_rooks 1 48 (omega arith) (
    Few-put 30 (put_piece 4 7 with_kings) 12 57 (omega arith) (
      Few-put 29 with_kings 4 7 (omega arith) (
        Few-put 28 (put_piece 6 4 blank) 14 60 (omega arith)
          (Few-put 27 blank 6 4 (omega arith) Few-blank))))

abbrev plain_keys : Tables
plain_keys = record {
  psq = λ pc sq. pc * 64 + sq;
  en_passant = λ f. 2000 + f;
  castling = λ cr. 3000 + cr;
  side = 4000;
  no_pawns = 5000;
}

abbrev start : Position
start = record {
  placement = five_pieces;
  castling_rights_mask = λ sq. if sq == 7 then 1 else if sq == 4 then 3 else 0;
  castling_rook_square = λ cr. if cr == 1 then 7 else no_square;
  castling_path = λ cr. 0;
  st = record blank_state {
    castling_rights = 1;
    key = position_key plain_keys five_pieces white (record blank_state { castling_rights = 1 });
  };
  prev = [];
  game_ply = 0;
  side_to_move = white;
  chess960 = false;
}

abbrev castles : Move
castles = typed castling 4 7 knight

abbrev promotes : Move
promotes = typed promotion 48 57 queen

castles-IsMove : IsMove five_pieces white castles
unfolding put_piece move_type from_square to_square typed king_to rook_to
castles-IsMove = inl (
  refl,
  record {
    is_placement = five_pieces-IsPlacement;
    fits = (omega arith, omega arith, omega arith, omega arith);
    apart_from = λ e. omega arith;
    apart_to = λ e. omega arith;
    real_a = refl;
    real_b = refl;
    free_x = inr (inr refl);
    free_y = inr (inr refl);
  },
)

promotes-IsMove : IsMove five_pieces white promotes
unfolding put_piece move_type from_square to_square promotion_type typed capture_square piece_type
    Piece.new
promotes-IsMove = inr (
  refl,
  record {
    is_placement = five_pieces-IsPlacement;
    from_fits = omega arith;
    to_fits = omega arith;
    capture_fits = omega arith;
    elsewhere = λ e. omega arith;
    mover_stays = λ e. omega arith;
    mover_real = refl;
    target_free = inl refl;
    double_on_board = inl refl;
    pawn_promotes = inr (refl, refl, refl);
  },
)

king_on_e1 : is_real (with_kings.board 4) ≡ true
unfolding put_piece
king_on_e1 = refl

e2_free : with_kings.board 12 ≡ 0
unfolding put_piece
e2_free = refl

kings_castled : HasKings (placed white castles five_pieces)
unfolding placed put_piece move_type from_square to_square promotion_type typed king_square
    piece_type
kings_castled white = (6, refl)
kings_castled black = (60, refl)

kings_promoted : HasKings (placed white promotes five_pieces)
unfolding placed put_piece move_type from_square to_square promotion_type typed king_square
    piece_type
kings_promoted white = (4, refl)
kings_promoted black = (60, refl)

kings_start : HasKings five_pieces
unfolding put_piece king_square piece_type
kings_start white = (4, refl)
kings_start black = (60, refl)

start-HasKey : HasKey plain_keys start
unfolding position_key
start-HasKey = refl

unplaced-placed_example :
    IsPlacement (placed white castles five_pieces)
    × (unplaced white castles
          (captured white castles five_pieces)
          (placed white castles five_pieces)
        ≡ five_pieces)
unplaced-placed_example = unplaced-placed five_pieces white castles castles-IsMove

undo_move-do_move_example :
    (q : Position) × (do_move_checked plain_keys walked promotes true start ≡ some q)
    × (undo_move promotes q ≡ some start)
undo_move-do_move_example =
    undo_move-do_move plain_keys walked start promotes true promotes-IsMove five_pieces-Few
      kings_promoted

do_move-HasKey_example :
    (q : Position) × (do_move_checked plain_keys walked castles false start ≡ some q)
    × HasKey plain_keys q
do_move-HasKey_example =
    do_move-HasKey plain_keys walked start castles castles-IsMove start-HasKey false five_pieces-Few
      kings_castled

undo_null_move-do_null_move_example :
    (q : Position) × (do_null_move plain_keys walked start ≡ some q)
    × (undo_null_move q ≡ some start)
undo_null_move-do_null_move_example =
    undo_null_move-do_null_move plain_keys walked start kings_start

abbrev earlier : ℕ → StateInfo
earlier k = record blank_state { key = k }

abbrev archive : List StateInfo
archive = earlier 1 ∷ earlier 2 ∷ earlier 3 ∷ earlier 9 ∷ earlier 5 ∷ earlier 9 ∷ []

abbrev ninth : StateInfo
ninth = record blank_state { key = 9; rule50 = 8; plies_from_null = 7 }

set_repetition-Nearest_example :
    (n : ℕ) × Nearest archive 9 4 7 (set_repetition archive ninth).repetition (4 + 2 * n)
set_repetition-Nearest_example =
    set_repetition-Nearest archive ninth 1 (earlier 9) (omega arith) (refl, refl)

do_null_move-HasKey_example :
    (q : Position) × (do_null_move plain_keys walked start ≡ some q) × HasKey plain_keys q
do_null_move-HasKey_example =
    do_null_move-HasKey plain_keys walked start five_pieces-IsPlacement start-HasKey kings_start

move_piece-IsPlacement_example : IsPlacement (move_piece 4 12 with_kings)
move_piece-IsPlacement_example =
    move_piece-IsPlacement with_kings 4 12 with_kings-IsPlacement king_on_e1 (omega arith)
      (omega arith) (λ e. omega arith) e2_free

-- The state two plies back is a repetition.
abbrev drawn : Position
drawn = record start {
  st = record blank_state { rule50 = 9; plies_from_null = 9 };
  prev =
      record blank_state { rule50 = 8; plies_from_null = 8 }
      ∷ record blank_state { rule50 = 7; plies_from_null = 7; repetition = pos 4 }
      ∷ [];
}

has_repeated-RepeatedAt_example :
    (has_repeated drawn ≡ true) ↔ ((n : ℕ) × RepeatedAt (drawn.st ∷ drawn.prev) n)
has_repeated-RepeatedAt_example = has_repeated-RepeatedAt drawn
