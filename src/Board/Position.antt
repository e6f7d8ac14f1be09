-- ===== src/Board/Position.antt =====
-- crates/rfish-engine/src/board/position.rs: `StateInfo`, `Position` and the reads of both. The archive
-- of earlier states is a list with the newest first; the clocks stay far inside an `i32`.
pub mod Checks
pub mod Draws
pub mod Moves
pub mod State
pub mod Setup
pub mod Threats
pub mod See
pub mod GivesCheck
pub mod Cycles
pub mod Rights
pub mod Transition
use rfish.Prelude.{
  ℕ, ◌+◌, Bool, ◌&&◌, ◌||◌, ◌==◌, not, Option, none, some, List, [], ◌∷◌, bit_and, ltb,
  if◌then◌else◌,
}
use rfish.Prelude.Int.{ℤ, pos, ◌+ℤ◌}
use rfish.Board.Piece.{Color, PieceType, Piece, no_piece, color_index, type_index, queen, white}
use rfish.Board.Square.{Square, SquareOrNone, no_square, square}
use rfish.Board.Castling.{CastlingRights, no_rights, intersect, is_empty as no_rights_left}
use rfish.Board.Move.{Move, MoveType, move_type, move_type_index, to_square, promotion_type}
use rfish.Board.Value.{Value, value_zero, for_tt}
use rfish.Board.Bitboard.{Bitboard, empty, any}
use rfish.Board.Zobrist.{Key}
use rfish.Board.Placement.{Placement, is_empty_square, occupied}

pub record StateInfo : Type 0 where
  pub material_key : Key
  pub pawn_key : Key
  pub minor_piece_key : Key
  pub non_pawn_key : ℕ → Key
  pub non_pawn_material : ℕ → Value
  pub castling_rights : CastlingRights
  pub rule50 : ℕ
  pub plies_from_null : ℕ
  pub ep_square : SquareOrNone
  pub key : Key
  pub checkers : Bitboard
  pub blockers : ℕ → Bitboard
  pub pinners : ℕ → Bitboard
  pub check_squares : ℕ → Bitboard
  pub captured_piece : Piece
  pub repetition : ℤ

abbrev pub blank_state : StateInfo
blank_state = record {
  material_key = 0;
  pawn_key = 0;
  minor_piece_key = 0;
  non_pawn_key = λ c. 0;
  non_pawn_material = λ c. value_zero;
  castling_rights = no_rights;
  rule50 = 0;
  plies_from_null = 0;
  ep_square = no_square;
  key = 0;
  checkers = empty;
  blockers = λ c. empty;
  pinners = λ c. empty;
  check_squares = λ t. empty;
  captured_piece = no_piece;
  repetition = pos 0;
}

pub record Position : Type 0 where
  pub placement : Placement
  pub castling_rights_mask : Square → CastlingRights
  pub castling_rook_square : CastlingRights → SquareOrNone
  pub castling_path : CastlingRights → Bitboard
  pub st : StateInfo
  pub prev : List StateInfo
  pub game_ply : ℕ
  pub side_to_move : Color
  pub chess960 : Bool

abbrev pub is_type : MoveType → MoveType → Bool
is_type a b = move_type_index a == move_type_index b

unfoldable pub key : Position → Key
unfolding for_tt
key p = for_tt p.st.key p.st.rule50

abbrev pub in_check : Position → Bool
in_check p = any p.st.checkers

unfoldable pub non_pawn_material_total : Position → Value
unfolding ◌+ℤ◌
non_pawn_material_total p = p.st.non_pawn_material 0 +ℤ p.st.non_pawn_material 1

unfoldable pub can_castle : Position → CastlingRights → Bool
unfolding intersect
can_castle p cr = not (no_rights_left (intersect p.st.castling_rights cr))

-- A right that the position does not have panics.
unfoldable pub castling_rook_square_of : Position → CastlingRights → Option Square
unfolding square
castling_rook_square_of p cr = square (p.castling_rook_square cr)

unfoldable pub castling_impeded : Position → CastlingRights → Bool
castling_impeded p cr = any (bit_and (occupied p.placement) (p.castling_path cr))

unfoldable pub is_capture : Position → Move → Bool
unfolding move_type to_square
is_capture p m =
    (not (is_empty_square p.placement (to_square m))
      && not (is_type (move_type m) MoveType.castling))
    || is_type (move_type m) MoveType.en_passant

unfoldable pub is_capture_stage : Position → Move → Bool
unfolding is_capture promotion_type
is_capture_stage p m = is_capture p m || type_index (promotion_type m) == type_index queen
