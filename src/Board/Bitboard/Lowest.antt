-- ===== src/Board/Bitboard/Lowest.antt =====
-- The lowest square of a set is in it, and a set is one square smaller without it.
use rfish.Prelude.{ℕ, zero, suc, ◌+◌, ◌/◌, ◌%◌, ◌^◌, ◌≤◌, ◌<◌, ◌≡◌, ◌∙◌, refl, arith, ap}
use rfish.Prelude.{true, false, ◌==◌, if◌then◌else◌, some, bit_and, update}
use rfish.Prelude.{Bool-cases, inl, inr}
use rfish.Prelude.Bits.{digit, digit-lt, digit-bit_and, lt-pow_of_digits, digit_past}
use native.Mathlib.Nat.{pow-suc}
use rfish.Board.Square.{Square}
use rfish.Board.Bitboard.{Bitboard, trailing_zeros, lsb, contains, toggle}
use rfish.Board.Bitboard.Members.{contains-digit, contains_updates}
use rfish.Board.Placement.Counts.{occurrences, occurrences-update, occurrences_ext, is_at}

trailing_zeros_lem :
    (w b : ℕ) → 0 < b → b < 2 ^ w → (trailing_zeros w b < w) × (digit b (trailing_zeros w b) ≡ 1)
unfolding trailing_zeros digit
trailing_zeros_lem zero b some_bit low = absurd (omega arith)
trailing_zeros_lem (suc w) b some_bit low = elim (Bool-cases (b % 2 == 1)) [
  | inl odd ↦ rw odd (omega arith, ground (arith, odd))
  | inr even ↦
      let half : b % 2 ≡ 0 = ground (arith, even) in
      let rest = trailing_zeros_lem w (b / 2) (omega (arith, half)) (omega (arith, pow-suc 2 w)) in
      rw even (omega (arith, rest.0), rest.1)
]

pub lsb_lem :
    (b : Bitboard)
    → (b == 0) ≡ false
    → b < 2 ^ 64
    → (sq : Square) × (lsb b ≡ some sq) × (sq < 64) × (contains b sq ≡ true)
unfolding lsb
lsb_lem b nonempty low =
    let first = trailing_zeros_lem 64 b (ground (arith, nonempty)) low in
    let sq = trailing_zeros 64 b in
    (sq, rw nonempty refl, first.0, contains-digit b sq ∙ ap (λ n. n == 1) first.1)

pub bit_and_fits : (a b : Bitboard) → b < 2 ^ 64 → bit_and a b < 2 ^ 64
bit_and_fits a b fits =
    lt-pow_of_digits 64 (bit_and a b)
      (λ i past. omega (arith, digit-bit_and i a b, digit_past 64 i b fits past))

pub bit_and_fits_left : (a b : Bitboard) → a < 2 ^ 64 → bit_and a b < 2 ^ 64
bit_and_fits_left a b fits =
    lt-pow_of_digits 64 (bit_and a b)
      (λ i past. omega (arith, digit-bit_and i a b, digit_past 64 i a fits past))

pub contains-bit_and :
    (a b : Bitboard) (sq : Square) → contains (bit_and a b) sq ≡ true → contains b sq ≡ true
contains-bit_and a b sq both = ground (
  arith,
  contains-digit (bit_and a b) sq,
  contains-digit b sq,
  digit-bit_and sq a b,
  digit-lt a sq,
  digit-lt b sq,
)

pub contains-bit_and_left :
    (a b : Bitboard) (sq : Square) → contains (bit_and a b) sq ≡ true → contains a sq ≡ true
contains-bit_and_left a b sq both = ground (
  arith,
  contains-digit (bit_and a b) sq,
  contains-digit a sq,
  digit-bit_and sq a b,
  digit-lt b sq,
  digit-lt a sq,
)

abbrev mark_of : Bitboard → Square → ℕ
mark_of b i = if contains b i then 1 else 0

-- How many of the 64 squares a set has.
unfoldable pub size : Bitboard → ℕ
unfolding occurrences contains
size b = occurrences 64 (mark_of b) 1

occurrences-le : (n : ℕ) (board : Square → ℕ) (pc : ℕ) → occurrences n board pc ≤ n
unfolding occurrences
occurrences-le zero board pc = omega arith
occurrences-le (suc n) board pc = ground (arith, occurrences-le n board pc)

pub size_bound : (b : Bitboard) → size b ≤ 64
unfolding size
size_bound b = occurrences-le 64 (mark_of b) 1

pub size-toggle :
    (b : Bitboard) (sq : Square) → sq < 64 → contains b sq ≡ true → size (toggle b sq) + 1 ≡ size b
unfolding size
size-toggle b sq low inside =
    let marks = mark_of b in
    let same = occurrences_ext 64 (mark_of (toggle b sq)) (update marks sq 0) 1 (λ i h. mark i h) in
    let written = occurrences-update 64 marks sq 0 1 low in
    let marked : ◌≡◌ {A = ℕ} (is_at marks 1 sq) 1 = rw inside refl in
    omega (arith, same, written, marked)
  where
    mark : (i : Square) → i < 64 → mark_of (toggle b sq) i ≡ update (mark_of b) sq 0 i
    mark i h = ground (arith, (contains_updates b sq i low h).2, inside)
