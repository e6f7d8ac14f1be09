-- ===== src/Board/Move.antt =====
-- crates/rfish-engine/src/board/types.rs: `MoveType` and `Move`, sixteen bits laid out as
-- `type << 14 | (promo - Knight) << 12 | from << 6 | to`.
pub mod Encoding
use rfish.Prelude.{ℕ, ◌+◌, ◌-◌, ◌*◌, ◌/◌, ◌%◌, ◌^◌, ◌&&◌, Bool, bit_and, bit_or, ◌==◌, not}
use rfish.Prelude.{if◌then◌else◌}
use rfish.Board.Piece.{PieceType, knight, from_low3, type_index}
use rfish.Board.Square.{Square}

pub data MoveType : Type 0 where
  normal promotion en_passant castling : MoveType

abbrev pub move_type_index : MoveType → ℕ
move_type_index normal = 0
move_type_index promotion = 1
move_type_index en_passant = 2
move_type_index castling = 3

abbrev pub Move : Type 0
Move = ℕ

abbrev pub no_move : Move
no_move = 0

abbrev pub null_move : Move
null_move = 65

abbrev u16 : ℕ → ℕ
u16 n = n % 2 ^ 16

unfoldable pub new : Square → Square → Move
new from to = bit_or (u16 (from * 2 ^ 6)) to

-- `(promo as u16).wrapping_sub(Knight as u16)`.
abbrev promo_code : PieceType → ℕ
promo_code promo = u16 (type_index promo + 2 ^ 16 - type_index knight)

unfoldable pub typed : MoveType → Square → Square → PieceType → Move
typed ty from to promo =
    bit_or
      (bit_or (bit_or (u16 (move_type_index ty * 2 ^ 14)) (u16 (promo_code promo * 2 ^ 12)))
        (u16 (from * 2 ^ 6)))
      to

unfoldable pub from_square : Move → Square
from_square m = bit_and (m / 2 ^ 6) 0x3f

unfoldable pub to_square : Move → Square
to_square m = bit_and m 0x3f

unfoldable pub from_to : Move → ℕ
from_to m = bit_and m 0x0fff

unfoldable pub move_type : Move → MoveType
move_type m =
    let bits = bit_and (m / 2 ^ 14) 3 in
    if bits == 0
    then normal
    else if bits == 1
    then promotion
    else if bits == 2
    then en_passant
    else castling

unfoldable pub promotion_type : Move → PieceType
promotion_type m = from_low3 (bit_and (m / 2 ^ 12) 3 + type_index knight)

-- Neither of the two special encodings.
unfoldable pub is_ok : Move → Bool
is_ok m = not (no_move == m) && not (null_move == m)

abbrev pub is_some : Move → Bool
is_some m = not (m == no_move)

abbrev pub is_none : Move → Bool
is_none m = m == 0
