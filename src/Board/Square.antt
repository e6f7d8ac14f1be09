-- ===== src/Board/Square.antt =====
-- crates/rfish-engine/src/board/types.rs: `Square`, `SquareOrNone` and `Direction`. A file, a rank
-- and a square are their bytes; a panic is `none`.
pub mod Laws
use rfish.Prelude.{ℕ, ◌+◌, ◌-◌, ◌*◌, ◌/◌, ◌%◌, ◌^◌, ◌&&◌, bit_and, bit_xor, ltb, leb, ◌==◌, not}
use rfish.Prelude.{Bool, Option, none, some, if◌then◌else◌}
use rfish.Prelude.Int.{ℤ, pos, negsuc, ◌+ℤ◌, leb_ℤ, ltb_ℤ, pos_part}
use rfish.Board.Piece.{Color, white, black, color_index, is_lower}

abbrev pub File : Type 0
File = ℕ

abbrev pub Rank : Type 0
Rank = ℕ

abbrev pub Square : Type 0
Square = ℕ

abbrev pub square_nb : ℕ
square_nb = 64

unfoldable pub new_file : ℕ → Option File
new_file i = if ltb i 8 then some i else none

unfoldable pub new_rank : ℕ → Option Rank
new_rank i = if ltb i 8 then some i else none

unfoldable pub new : ℕ → Option Square
new i = if ltb i square_nb then some i else none

unfoldable pub make : File → Rank → Square
make f r = (r * 8 + f) % 2 ^ 8

unfoldable pub file : Square → File
file sq = bit_and sq 7

unfoldable pub rank : Square → Rank
rank sq = sq / 2 ^ 3

unfoldable pub file_to_char : File → ℕ
file_to_char f = b'a' + f

unfoldable pub rank_to_char : Rank → ℕ
rank_to_char r = b'1' + r

unfoldable pub flip_rank : Square → Square
flip_rank sq = bit_xor sq 0b111000

unfoldable pub flip_file : Square → Square
flip_file sq = bit_xor sq 0b111

unfoldable pub relative_rank : Square → Color → Rank
unfolding rank
relative_rank sq c = bit_xor (rank sq) (color_index c * 7)

unfoldable pub relative : Square → Color → Square
relative sq c = bit_xor sq (color_index c * 0b111000)

pub data Direction : Type 0 where
  north east south west north_east south_east south_west north_west : Direction

-- The discriminant, an `i8`.
abbrev pub delta : Direction → ℤ
delta north = pos 8
delta east = pos 1
delta south = negsuc 7
delta west = negsuc 0
delta north_east = pos 9
delta south_east = negsuc 6
delta south_west = negsuc 8
delta north_west = pos 7

abbrev pub pawn_push : Color → Direction
pawn_push white = north
pawn_push black = south

-- `as u8` of an `i8` sum: two's complement in eight bits.
abbrev byte : ℤ → ℕ
byte (pos n) = n % 2 ^ 8
byte (negsuc n) = 255 - n % 2 ^ 8

-- Without its `debug_assert`.
unfoldable pub shift : Square → Direction → Square
unfolding ◌+ℤ◌
shift sq d = byte (pos sq +ℤ delta d)

unfoldable pub try_shift : Square → Direction → Option Square
unfolding ◌+ℤ◌
try_shift sq d =
    let stepped = pos sq +ℤ delta d in
    if leb_ℤ (pos 0) stepped && ltb_ℤ stepped (pos square_nb) then some (pos_part stepped) else none

abbrev pub apart : ℕ → ℕ → ℕ
apart a b = (a - b) + (b - a)

unfoldable pub distance : Square → Square → ℕ
unfolding file rank
distance a b =
    let df = apart (file a) (file b) in
    let dr = apart (rank a) (rank b) in if ltb dr df then df else dr

unfoldable pub from_coords : ℕ → ℕ → Option Square
unfolding make
from_coords f r =
    if is_lower f && leb f b'h' && leb b'1' r && leb r b'8'
    then some (make (f - b'a') (r - b'1'))
    else none

-- `Display`: the two characters that are written.
unfoldable pub display : Square → ℕ × ℕ
unfolding file rank file_to_char rank_to_char
display sq = (file_to_char (file sq), rank_to_char (rank sq))

-- A square, or the sentinel one past the last.
abbrev pub SquareOrNone : Type 0
SquareOrNone = ℕ

abbrev pub no_square : SquareOrNone
no_square = square_nb

abbrev pub is_some : SquareOrNone → Bool
is_some s = not (s == no_square)

unfoldable pub square : SquareOrNone → Option Square
square s = if is_some s then some s else none
