-- ===== src/Board/Bitboard/Geometry.antt =====
-- Shifting a board by a direction: every square steps at once, and none wraps round an edge.
use rfish.Prelude.{ℕ, ◌+◌, ◌-◌, ◌*◌, ◌/◌, ◌%◌, ◌^◌, ◌≤◌, ◌<◌, ◌≡◌, refl, arith, ap, ◌∙◌}
use rfish.Prelude.{
  Bool, true, false, ◌&&◌, ◌==◌, leb, ltb, if◌then◌else◌, bit_and, Option, none, some,
}
use rfish.Prelude.{all_below, all_below_sound}
use rfish.Prelude.Bits.{
  digit, digit-lt, digit-bit_and, digit_past, digit-shl, digit-shl_low, digit-shr, digit-mod,
}
use native.Mathlib.Decide.{dec_lt}
use rfish.Board.Square.{Square, Direction, north, east, south, west, north_east, south_east}
use rfish.Board.Square.{south_west, north_west, file, rank}
use rfish.Board.Square.Laws.{file_lem}
use rfish.Board.Bitboard.{Bitboard, contains, shift, not_u64, file_a, file_h}
use rfish.Board.Bitboard.Members.{contains-digit}

-- The square that a step in the direction reaches this one from, if it is on the board.
unfoldable pub origin : Direction → Square → Option Square
origin north sq = if leb 1 (rank sq) then some (sq - 8) else none
origin south sq = if leb (rank sq) 6 then some (sq + 8) else none
origin east sq = if leb 1 (file sq) then some (sq - 1) else none
origin west sq = if leb (file sq) 6 then some (sq + 1) else none
origin north_east sq = if leb 1 (rank sq) && leb 1 (file sq) then some (sq - 9) else none
origin north_west sq = if leb 1 (rank sq) && leb (file sq) 6 then some (sq - 7) else none
origin south_east sq = if leb (rank sq) 6 && leb 1 (file sq) then some (sq + 7) else none
origin south_west sq = if leb (rank sq) 6 && leb (file sq) 6 then some (sq + 9) else none

abbrev pub at_origin : Bitboard → Option Square → Bool
at_origin b none = false
at_origin b (some s) = contains b s

-- Digits of a word shifted up within 64 bits.
shl_digit :
    (k i b : ℕ) → i < 64 → digit (b * 2 ^ k % 2 ^ 64) i ≡ (if ltb i k then 0 else digit b (i - k))
shl_digit k i b hi = digit-mod 64 i (b * 2 ^ k) hi ∙ elim (dec_lt i k) [
  | yes h ↦ ground (arith, digit-shl_low k i b h)
  | no h ↦
      let whole : i ≡ k + (i - k) = omega arith in
      ground (arith, ap (digit (b * 2 ^ k)) whole, digit-shl k (i - k) b)
]

shr_digit : (k i b : ℕ) → digit (b / 2 ^ k) i ≡ digit b (i + k)
shr_digit k i b = let order : k + i ≡ i + k = omega arith in digit-shr k i b ∙ ap (digit b) order

-- The file masks, square by square.
mask_table :
    (all_below 64 (λ i. digit (not_u64 file_h) i == (if i % 8 == 7 then 0 else 1)) ≡ true)
    × (all_below 64 (λ i. digit (not_u64 file_a) i == (if i % 8 == 0 then 0 else 1)) ≡ true)
unfolding all_below digit
mask_table = (refl, refl)

off_file_h : (i : ℕ) → i < 64 → digit (not_u64 file_h) i ≡ (if i % 8 == 7 then 0 else 1)
off_file_h i h = ground (
  arith,
  all_below_sound 64 (λ j. digit (not_u64 file_h) j == (if j % 8 == 7 then 0 else 1)) i mask_table.0
      h,
)

off_file_a : (i : ℕ) → i < 64 → digit (not_u64 file_a) i ≡ (if i % 8 == 0 then 0 else 1)
off_file_a i h = ground (
  arith,
  all_below_sound 64 (λ j. digit (not_u64 file_a) j == (if j % 8 == 0 then 0 else 1)) i mask_table.1
      h,
)

masked_h :
    (b i : ℕ)
    → b < 2 ^ 64
    → digit (bit_and b (not_u64 file_h)) i ≡ (if i % 8 == 7 then 0 else digit b i)
masked_h b i hb = elim (dec_lt i 64) [
  | yes h ↦ ground (arith, digit-bit_and i b (not_u64 file_h), off_file_h i h, digit-lt b i)
  | no h ↦
      let past : 64 ≤ i = omega arith in
      ground (arith, digit-bit_and i b (not_u64 file_h), digit_past 64 i b hb past)
]

masked_a :
    (b i : ℕ)
    → b < 2 ^ 64
    → digit (bit_and b (not_u64 file_a)) i ≡ (if i % 8 == 0 then 0 else digit b i)
masked_a b i hb = elim (dec_lt i 64) [
  | yes h ↦ ground (arith, digit-bit_and i b (not_u64 file_a), off_file_a i h, digit-lt b i)
  | no h ↦
      let past : 64 ≤ i = omega arith in
      ground (arith, digit-bit_and i b (not_u64 file_a), digit_past 64 i b hb past)
]

-- A board has no digit past its squares.
off_board : (b i : ℕ) → b < 2 ^ 64 → (if leb 64 i then digit b i else 0) ≡ 0
off_board b i hb = elim (dec_lt i 64) [
  | yes h ↦ ground arith
  | no h ↦ ground (arith, digit_past 64 i b hb (omega arith))
]

-- A square is on a shifted board of 64 bits exactly when the step into it comes from a square of the
-- board.
pub contains-shift :
    (b : Bitboard) (d : Direction) (sq : Square)
    → b < 2 ^ 64
    → sq < 64
    → contains (shift b d) sq ≡ at_origin b (origin d sq)
unfolding shift origin rank
contains-shift b north sq hb hs =
    contains-digit (b * 2 ^ 8 % 2 ^ 64) sq
    ∙ ground (arith, shl_digit 8 sq b hs, contains-digit b (sq - 8))
contains-shift b south sq hb hs =
    contains-digit (b / 2 ^ 8) sq
    ∙ ground (arith, shr_digit 8 sq b, off_board b (sq + 8) hb, contains-digit b (sq + 8))
contains-shift b east sq hb hs =
    contains-digit ((bit_and b (not_u64 file_h)) * 2 ^ 1 % 2 ^ 64) sq
    ∙ ground (
      arith,
      shl_digit 1 sq (bit_and b (not_u64 file_h)) hs,
      masked_h b (sq - 1) hb,
      file_lem sq,
      contains-digit b (sq - 1),
    )
contains-shift b west sq hb hs =
    contains-digit ((bit_and b (not_u64 file_a)) / 2 ^ 1) sq
    ∙ ground (
      arith,
      shr_digit 1 sq (bit_and b (not_u64 file_a)),
      masked_a b (sq + 1) hb,
      file_lem sq,
      off_board b (sq + 1) hb,
      contains-digit b (sq + 1),
    )
contains-shift b north_east sq hb hs =
    contains-digit ((bit_and b (not_u64 file_h)) * 2 ^ 9 % 2 ^ 64) sq
    ∙ ground (
      arith,
      shl_digit 9 sq (bit_and b (not_u64 file_h)) hs,
      masked_h b (sq - 9) hb,
      file_lem sq,
      contains-digit b (sq - 9),
    )
contains-shift b north_west sq hb hs =
    contains-digit ((bit_and b (not_u64 file_a)) * 2 ^ 7 % 2 ^ 64) sq
    ∙ ground (
      arith,
      shl_digit 7 sq (bit_and b (not_u64 file_a)) hs,
      masked_a b (sq - 7) hb,
      file_lem sq,
      contains-digit b (sq - 7),
    )
contains-shift b south_east sq hb hs =
    contains-digit ((bit_and b (not_u64 file_h)) / 2 ^ 7) sq
    ∙ ground (
      arith,
      shr_digit 7 sq (bit_and b (not_u64 file_h)),
      masked_h b (sq + 7) hb,
      file_lem sq,
      off_board b (sq + 7) hb,
      contains-digit b (sq + 7),
    )
contains-shift b south_west sq hb hs =
    contains-digit ((bit_and b (not_u64 file_a)) / 2 ^ 9) sq
    ∙ ground (
      arith,
      shr_digit 9 sq (bit_and b (not_u64 file_a)),
      masked_a b (sq + 9) hb,
      file_lem sq,
      off_board b (sq + 9) hb,
      contains-digit b (sq + 9),
    )
