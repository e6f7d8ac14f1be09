-- ===== src/Board/Bitboard.antt =====
-- crates/rfish-engine/src/board/bitboard.rs: sets of squares, one bit each, as 64-bit words. The
-- standard library's counts of a word's bits are recursions over its width; a panic is `none`.
pub mod Members
pub mod Pop
pub mod Geometry
pub mod Steps
pub mod Lowest
use rfish.Prelude.{ℕ, zero, suc, ◌+◌, ◌-◌, ◌*◌, ◌/◌, ◌%◌, ◌^◌, ◌&&◌, bit_and, bit_or, bit_xor}
use rfish.Prelude.{Bool, not, ◌==◌, if◌then◌else◌, Option, none, some, List, [], ◌∷◌}
use rfish.Board.Piece.{Color, white, black}
use rfish.Board.Square.{Square, Direction, north, east, south, west, north_east, south_east}
use rfish.Board.Square.{south_west, north_west, pawn_push as push_direction}

abbrev pub Bitboard : Type 0
Bitboard = ℕ

abbrev pub empty : Bitboard
empty = 0

abbrev pub not_u64 : ℕ → ℕ
not_u64 b = 2 ^ 64 - 1 - b

abbrev pub all : Bitboard
all = not_u64 0

abbrev pub file_a : Bitboard
file_a = 0x0101_0101_0101_0101

abbrev pub file_h : Bitboard
file_h = 0x8080_8080_8080_8080

abbrev shl : ℕ → ℕ → ℕ
shl b k = b * 2 ^ k % 2 ^ 64

abbrev shr : ℕ → ℕ → ℕ
shr b k = b / 2 ^ k

unfoldable pub from_square : Square → Bitboard
from_square sq = 2 ^ sq

abbrev pub is_empty : Bitboard → Bool
is_empty b = b == 0

abbrev pub any : Bitboard → Bool
any b = not (b == 0)

unfoldable pub contains : Bitboard → Square → Bool
contains b sq = not (bit_and b (2 ^ sq) == 0)

unfoldable pub set : Bitboard → Square → Bitboard
set b sq = bit_or b (2 ^ sq)

unfoldable pub clear : Bitboard → Square → Bitboard
clear b sq = bit_and b (not_u64 (2 ^ sq))

unfoldable pub toggle : Bitboard → Square → Bitboard
toggle b sq = bit_xor b (2 ^ sq)

-- The ones among the low `w` bits.
unfoldable pub count_ones : ℕ → ℕ → ℕ
count_ones zero b = 0
count_ones (suc w) b = b % 2 + count_ones w (b / 2)

-- The zeros below the lowest one, all `w` if there is none.
unfoldable pub trailing_zeros : ℕ → ℕ → ℕ
trailing_zeros zero b = 0
trailing_zeros (suc w) b = let rest = trailing_zeros w (b / 2) in if b % 2 == 1 then 0 else suc rest

-- The width of a number of at most `w` bits.
unfoldable pub bit_length : ℕ → ℕ → ℕ
bit_length zero b = 0
bit_length (suc w) b = let rest = bit_length w (b / 2) in if b == 0 then 0 else suc rest

unfoldable pub count : Bitboard → ℕ
unfolding count_ones
count b = count_ones 64 b

unfoldable pub exactly_one : Bitboard → Bool
unfolding count_ones
exactly_one b = not (b == 0) && count_ones 64 b == 1

-- `wrapping_sub(1)`.
unfoldable pub more_than_one : Bitboard → Bool
more_than_one b = not (bit_and b ((b + 2 ^ 64 - 1) % 2 ^ 64) == 0)

unfoldable pub lsb : Bitboard → Option Square
unfolding trailing_zeros
lsb b = if b == 0 then none else some (trailing_zeros 64 b)

-- `63 - leading_zeros`.
unfoldable pub msb : Bitboard → Option Square
unfolding bit_length
msb b = if b == 0 then none else some (63 - (64 - bit_length 64 b))

unfoldable pub pop_lsb : Bitboard → Option (Square × Bitboard)
unfolding lsb
pop_lsb b = elim (lsb b) [ none ↦ none | some sq ↦ some (sq, bit_and b (b - 1)) ]

unfoldable pub frontmost : Bitboard → Color → Option Square
unfolding lsb msb
frontmost b white = msb b
frontmost b black = lsb b

unfoldable pub shift : Bitboard → Direction → Bitboard
shift b north = shl b 8
shift b south = shr b 8
shift b east = shl (bit_and b (not_u64 file_h)) 1
shift b west = shr (bit_and b (not_u64 file_a)) 1
shift b north_east = shl (bit_and b (not_u64 file_h)) 9
shift b north_west = shl (bit_and b (not_u64 file_a)) 7
shift b south_east = shr (bit_and b (not_u64 file_h)) 7
shift b south_west = shr (bit_and b (not_u64 file_a)) 9

unfoldable pub pawn_push : Bitboard → Color → Bitboard
unfolding shift
pawn_push b c = shift b (push_direction c)

unfoldable pub pawn_attacks : Bitboard → Color → Bitboard
unfolding shift
pawn_attacks b white = bit_or (shift b north_west) (shift b north_east)
pawn_attacks b black = bit_or (shift b south_west) (shift b south_east)

-- The iterator's items: `next` until the set is empty. Each round takes one of at most 64 squares.
unfoldable pub iter : ℕ → Bitboard → List Square
unfolding pop_lsb
iter zero b = []
iter (suc fuel) b = elim (pop_lsb b) [ none ↦ [] | some (sq, rest) ↦ sq ∷ iter fuel rest ]

unfoldable pub squares : Bitboard → List Square
unfolding iter
squares b = iter 64 b
