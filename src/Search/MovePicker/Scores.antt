-- ===== src/Search/MovePicker/Scores.antt =====
-- crates/rfish-engine/src/search/movepick.rs: the scores by which the three kinds of moves are ordered.
-- An index out of a table panics.
use rfish.Prelude.{ℕ, ◌+◌, ltb, if◌then◌else◌, Option, some, ◌>>=◌}
use rfish.Prelude.{List, [], ◌∷◌, get_elem?, bit_or, update}
use rfish.Prelude.Int.{ℤ, pos, negsuc, ◌+ℤ◌, ◌-ℤ◌, ◌*ℤ◌, quot}
use rfish.Board.Piece.{Piece, piece_type, new as new_piece, type_index}
use rfish.Board.Piece.{pawn, knight, bishop, rook, queen}
use rfish.Board.Square.{Square, make, rank}
use rfish.Board.Move.{Move, MoveType, from_square, to_square, move_type}
use rfish.Board.Value.{Ply, piece_value}
use rfish.Board.Bitboard.{Bitboard, empty, contains}
use rfish.Board.Attacks.{Sliders}
use rfish.Board.Position.{Position, is_type, is_capture_stage}
use rfish.Board.Position.Threats.{moved_piece, check_squares, threats_by}
use rfish.Board.Position.See.{see_ge, as_int}
use rfish.Search.History.{Plane, Planes, get_planes, capture_get, butterfly_get, low_ply_get}

abbrev pub low_ply_history_size : ℕ
low_ply_history_size = 5

-- The victim's value dominates; an en-passant capture scores an empty square.
unfoldable pub score_capture : Position → Planes → Move → Option ℤ
unfolding to_square moved_piece piece_type piece_value capture_get ◌+ℤ◌ ◌*ℤ◌
score_capture p captures m = do
  let captured = p.placement.board (to_square m)
  past ← capture_get captures (moved_piece p m) (to_square m) (piece_type captured)
  some (past +ℤ pos 7 *ℤ piece_value captured)

-- What the quiet scores read: the histories of the node, and its ply.
pub record QuietTables : Type 0 where
  pub main : Plane
  pub pawn : Planes
  pub pawn_row : ℕ
  pub continuation : Planes
  pub continuations : List ℕ
  pub low_ply : Plane
  pub ply : Ply

-- The squares attacked by a piece cheaper than one of a type.
unfoldable pub threat_by_lesser : Sliders → Position → Option (ℕ → Bitboard)
unfolding threats_by
threat_by_lesser sl p = do
  pawn_att ← threats_by sl p pawn
  knight_att ← threats_by sl p knight
  bishop_att ← threats_by sl p bishop
  rook_att ← threats_by sl p rook
  let minor = bit_or (bit_or knight_att bishop_att) pawn_att
  some (
      update
        (update
          (update (update (λ t. empty) (type_index knight) pawn_att) (type_index bishop) pawn_att)
          (type_index rook) minor)
        (type_index queen) (bit_or rook_att minor))

-- Planes one, two, three, four and six.
continuation_sum : QuietTables → Piece → Square → List ℕ → ℤ → Option ℤ
unfolding ◌+ℤ◌
continuation_sum t pc to [] sum = some sum
continuation_sum t pc to (s ∷ rest) sum = do
  plane ← get_elem? t.continuations s
  past ← get_planes t.continuation plane pc to
  continuation_sum t pc to rest (sum +ℤ past)

-- A quiet check that does not hang the mover.
check_bonus : Sliders → Position → Move → Option ℤ
unfolding check_squares moved_piece piece_type to_square contains see_ge
check_bonus sl p m =
    if contains (check_squares p (piece_type (moved_piece p m))) (to_square m)
    then (see_ge sl p m (negsuc 74) >>= λ safe. some (if safe then pos 16384 else pos 0))
    else some (pos 0)

low_ply_bonus : QuietTables → Move → Option ℤ
unfolding low_ply_get ◌*ℤ◌ quot
low_ply_bonus t m =
    if ltb t.ply low_ply_history_size
    then (low_ply_get t.low_ply t.ply m >>= λ past. some (quot (pos 8 *ℤ past) (1 + t.ply)))
    else some (pos 0)

unfoldable pub score_quiet : Sliders → Position → QuietTables → (ℕ → Bitboard) → Move → Option ℤ
unfolding from_square to_square moved_piece piece_type piece_value new_piece butterfly_get
    continuation_sum check_bonus low_ply_bonus contains ◌+ℤ◌ ◌-ℤ◌ ◌*ℤ◌
score_quiet sl p t lesser m = do
  let pc = moved_piece p m
  let to = to_square m
  let pt = piece_type pc
  main ← butterfly_get t.main p.side_to_move m
  pawns ← get_planes t.pawn t.pawn_row pc to
  past ← continuation_sum t pc to (0 ∷ 1 ∷ 2 ∷ 3 ∷ 5 ∷ []) (pos 2 *ℤ main +ℤ pos 2 *ℤ pawns)
  check ← check_bonus sl p m
  let cheaper = lesser (type_index pt)
  let v = pos 20 *ℤ (as_int (contains cheaper (from_square m)) -ℤ as_int (contains cheaper to))
  low ← low_ply_bonus t m
  some (past +ℤ check +ℤ piece_value (new_piece p.side_to_move pt) *ℤ v +ℤ low)

-- Captures stand above every quiet evasion.
unfoldable pub score_evasion : Position → QuietTables → Move → Option ℤ
unfolding to_square moved_piece is_capture_stage piece_value butterfly_get ◌+ℤ◌
score_evasion p t m =
    if is_capture_stage p m
    then some (piece_value (p.placement.board (to_square m)) +ℤ pos 268435456)
    else (do
      main ← butterfly_get t.main p.side_to_move m
      plane ← get_elem? t.continuations 0
      past ← get_planes t.continuation plane (moved_piece p m) (to_square m)
      some (main +ℤ past))

-- The square a move ends on, as the continuation tables index it.
unfoldable pub continuation_to : Move → Square
unfolding from_square to_square move_type make rank
continuation_to m =
    if is_type (move_type m) MoveType.castling
    then make (if ltb (from_square m) (to_square m) then 6 else 2) (rank (from_square m))
    else to_square m
