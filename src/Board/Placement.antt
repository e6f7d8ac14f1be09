-- ===== src/Board/Placement.antt =====
-- crates/rfish-engine/src/board/position.rs: the board of a `Position` and the sets that it keeps beside
-- the board, with the three writes that all of them share. An array is the function of its indices.
pub mod Planes
pub mod Counts
pub mod Contract
pub mod Writes
pub mod Exchange
use rfish.Prelude.{ℕ, zero, suc, ◌+◌, ◌/◌, ◌^◌, Bool, ◌==◌, not, if◌then◌else◌, Option}
use rfish.Prelude.{bit_and, bit_or, bit_xor, modify, update}
use rfish.Prelude.Int.{ℤ, pos, ◌+ℤ◌, ◌-ℤ◌}
use rfish.Board.Piece.{
  Color, PieceType, Piece, no_piece, is_none, color_index, type_index, piece_type, king,
}
use rfish.Board.Piece.{new as new_piece, white, black}
use rfish.Board.Square.{Square}
use rfish.Board.Bitboard.{Bitboard, empty, set, toggle, from_square, lsb, count as count_squares}

-- The fields of `Position` that a piece on a square is stored in.
pub record Placement : Type 0 where
  pub board : Square → Piece
  pub by_type : ℕ → Bitboard
  pub by_color : ℕ → Bitboard
  pub piece_count : Piece → ℤ

-- Their part of `Position::blank`.
abbrev pub blank : Placement
blank = record {
  board = λ sq. no_piece;
  by_type = λ t. empty;
  by_color = λ c. empty;
  piece_count = λ pc. pos 0;
}

abbrev pub is_empty_square : Placement → Square → Bool
is_empty_square p sq = is_none (p.board sq)

abbrev pub occupied : Placement → Bitboard
occupied p = p.by_type 0

abbrev pub pieces : Placement → PieceType → Bitboard
pieces p pt = p.by_type (type_index pt)

abbrev pub colored : Placement → Color → Bitboard
colored p c = p.by_color (color_index c)

abbrev pub pieces_of : Placement → Color → PieceType → Bitboard
pieces_of p c pt = bit_and (colored p c) (pieces p pt)

abbrev pub pieces_of2 : Placement → Color → PieceType → PieceType → Bitboard
pieces_of2 p c a b = bit_and (colored p c) (bit_or (pieces p a) (pieces p b))

unfoldable pub count : Placement → Color → PieceType → ℤ
unfolding new_piece
count p c pt = p.piece_count (new_piece c pt)

unfoldable pub count_both : Placement → PieceType → ℤ
unfolding count ◌+ℤ◌
count_both p pt = count p white pt +ℤ count p black pt

unfoldable pub piece_total : Placement → ℕ
unfolding count_squares
piece_total p = count_squares (occupied p)

unfoldable pub king_square : Placement → Color → Option Square
unfolding lsb
king_square p c = lsb (pieces_of p c king)

-- `pc.color().index()` and `pc.piece_type().index()` of the sixteen encodings.
abbrev pub color_slot : Piece → ℕ
color_slot pc = pc / 2 ^ 3

abbrev pub type_slot : Piece → ℕ
type_slot pc = type_index (piece_type pc)

-- `put_piece`, `remove_piece` and `move_piece`: the calls that record threats are given `None`.
unfoldable pub put_piece : Piece → Square → Placement → Placement
unfolding set ◌+ℤ◌
put_piece pc sq p = record {
  board = update p.board sq pc;
  by_type = modify (modify p.by_type 0 (λ b. set b sq)) (type_slot pc) (λ b. set b sq);
  by_color = modify p.by_color (color_slot pc) (λ b. set b sq);
  piece_count = modify p.piece_count pc (λ n. n +ℤ pos 1);
}

unfoldable pub remove_piece : Square → Placement → Placement
unfolding toggle ◌-ℤ◌
remove_piece sq p =
    let pc = p.board sq in
    record {
      board = update p.board sq no_piece;
      by_type = modify (modify p.by_type 0 (λ b. toggle b sq)) (type_slot pc) (λ b. toggle b sq);
      by_color = modify p.by_color (color_slot pc) (λ b. toggle b sq);
      piece_count = modify p.piece_count pc (λ n. n -ℤ pos 1);
    }

unfoldable pub move_piece : Square → Square → Placement → Placement
unfolding from_square
move_piece from to p =
    let pc = p.board from in
    let delta = bit_or (from_square from) (from_square to) in
    record {
      board = update (update p.board from no_piece) to pc;
      by_type =
          modify (modify p.by_type 0 (λ b. bit_xor b delta)) (type_slot pc) (λ b. bit_xor b delta);
      by_color = modify p.by_color (color_slot pc) (λ b. bit_xor b delta);
      piece_count = p.piece_count;
    }

unfoldable pub swap_piece : Square → Piece → Placement → Placement
unfolding remove_piece put_piece
swap_piece sq pc p = put_piece pc sq (remove_piece sq p)
