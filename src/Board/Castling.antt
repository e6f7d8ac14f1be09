-- ===== src/Board/Castling.antt =====
-- crates/rfish-engine/src/board/types.rs: `CastlingRights`, a nibble.
pub mod Laws
use rfish.Prelude.{ℕ, ◌+◌, ◌-◌, ◌*◌, ◌^◌, Bool, bit_and, bit_or, leb, ◌==◌, Option, none, some}
use rfish.Prelude.{if◌then◌else◌}
use rfish.Board.Piece.{Color, white, black, color_index}

abbrev pub CastlingRights : Type 0
CastlingRights = ℕ

abbrev pub no_rights : CastlingRights
no_rights = 0

abbrev pub any : CastlingRights
any = 15

abbrev pub for_color : Color → CastlingRights
for_color white = 3
for_color black = 12

unfoldable pub king_side : Color → CastlingRights
king_side c = 2 ^ (color_index c * 2)

unfoldable pub queen_side : Color → CastlingRights
queen_side c = 2 * 2 ^ (color_index c * 2)

-- The assertion on the nibble is a panic.
unfoldable pub from_raw : ℕ → Option CastlingRights
from_raw v = if leb v any then some v else none

unfoldable pub contains : CastlingRights → CastlingRights → Bool
contains a b = bit_and a b == b

abbrev pub is_empty : CastlingRights → Bool
is_empty a = a == 0

unfoldable pub union : CastlingRights → CastlingRights → CastlingRights
union a b = bit_or a b

-- `!other` of a byte.
unfoldable pub without : CastlingRights → CastlingRights → CastlingRights
without a b = bit_and a (255 - b)

unfoldable pub intersect : CastlingRights → CastlingRights → CastlingRights
intersect a b = bit_and a b
