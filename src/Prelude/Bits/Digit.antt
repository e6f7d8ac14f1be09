-- ===== src/Prelude/Bits/Digit.antt =====
-- Binary digits: what each bit operation does to them, and that a number is its digits.
use Prim.Native.Nat.{ℕ, zero, suc, ◌+◌, ◌-◌, ◌/◌, ◌%◌, ◌^◌, ◌≤◌, ◌<◌, min, max}
use Prim.Native.Nat.{bit_and, bit_or, bit_xor}
use mathlib.Core.Path.{◌≡◌, refl}
use native.Mathlib.Nat.{pow-suc}
use native.Mathlib.Omega.{arith}
use rfish.Prelude.Bits.Step.{bit_and_step, bit_or_step, bit_xor_step}
use rfish.Prelude.Tests.{◌==◌, if◌then◌else◌}

-- Digit `i` of `a`, the lowest first.
unfoldable pub digit : ℕ → ℕ → ℕ
digit a zero = a % 2
digit a (suc i) = digit (a / 2) i

pub digit-lt : (a i : ℕ) → digit a i < 2
unfolding digit
digit-lt a zero = omega arith
digit-lt a (suc i) = digit-lt (a / 2) i

pub digit-zero : (i : ℕ) → digit 0 i ≡ 0
unfolding digit
digit-zero zero = refl
digit-zero (suc i) = digit-zero i

pub digit-bit_and : (i a b : ℕ) → digit (bit_and a b) i ≡ min (digit a i) (digit b i)
unfolding digit
digit-bit_and zero a b = omega (arith, bit_and_step a b)
digit-bit_and (suc i) a b =
    let half : bit_and a b / 2 ≡ bit_and (a / 2) (b / 2) = omega (arith, bit_and_step a b) in
    rw half (digit-bit_and i (a / 2) (b / 2))

pub digit-bit_or : (i a b : ℕ) → digit (bit_or a b) i ≡ max (digit a i) (digit b i)
unfolding digit
digit-bit_or zero a b = omega (arith, bit_or_step a b)
digit-bit_or (suc i) a b =
    let half : bit_or a b / 2 ≡ bit_or (a / 2) (b / 2) = omega (arith, bit_or_step a b) in
    rw half (digit-bit_or i (a / 2) (b / 2))

pub digit-bit_xor : (i a b : ℕ) → digit (bit_xor a b) i ≡ (digit a i + digit b i) % 2
unfolding digit
digit-bit_xor zero a b = omega (arith, bit_xor_step a b)
digit-bit_xor (suc i) a b =
    let half : bit_xor a b / 2 ≡ bit_xor (a / 2) (b / 2) = omega (arith, bit_xor_step a b) in
    rw half (digit-bit_xor i (a / 2) (b / 2))

-- A power of two has one digit.
pub digit-pow : (k i : ℕ) → digit (2 ^ k) i ≡ (if k == i then 1 else 0)
unfolding digit
digit-pow zero zero = refl
digit-pow zero (suc i) = ground (arith, digit-zero i)
digit-pow (suc k) zero = ground (arith, pow-suc 2 k)
digit-pow (suc k) (suc i) =
    let half : 2 ^ suc k / 2 ≡ 2 ^ k = omega (arith, pow-suc 2 k) in
    rw half (ground (arith, digit-pow k i))

-- Past its width a number has no digit.
pub digit_past : (w i a : ℕ) → a < 2 ^ w → w ≤ i → digit a i ≡ 0
unfolding digit
digit_past zero i a h p = let none_left : a ≡ 0 = omega arith in rw none_left (digit-zero i)
digit_past (suc w) zero a h p = absurd (omega arith)
digit_past (suc w) (suc i) a h p = digit_past w i (a / 2) (omega (arith, pow-suc 2 w)) (omega arith)

-- `!a` in a word of `w` bits flips each digit of the word.
pub digit_flip : (w i a : ℕ) → a < 2 ^ w → i < w → digit (2 ^ w - 1 - a) i ≡ 1 - digit a i
unfolding digit
digit_flip zero i a h p = absurd (omega arith)
digit_flip (suc w) zero a h p = omega (arith, pow-suc 2 w)
digit_flip (suc w) (suc i) a h p =
    let half : (2 ^ suc w - 1 - a) / 2 ≡ 2 ^ w - 1 - a / 2 = omega (arith, pow-suc 2 w) in
    rw half (digit_flip w i (a / 2) (omega (arith, pow-suc 2 w)) (omega arith))

digit_ext_below : (k a b : ℕ) → a ≤ k → b ≤ k → ((i : ℕ) → digit a i ≡ digit b i) → a ≡ b
unfolding digit
digit_ext_below zero a b p q same = omega arith
digit_ext_below (suc k) a b p q same = omega (
  arith,
  same 0,
  digit_ext_below k (a / 2) (b / 2) (omega arith) (omega arith) (λ i. same (suc i)),
)

-- Numbers with the same digits are equal.
pub digit_ext : (a b : ℕ) → ((i : ℕ) → digit a i ≡ digit b i) → a ≡ b
digit_ext a b same = digit_ext_below (a + b) a b (omega arith) (omega arith) same

-- A number all of whose digits from `w` on are 0 fits `w` bits.
pub lt-pow_of_digits : (w a : ℕ) → ((i : ℕ) → w ≤ i → digit a i ≡ 0) → a < 2 ^ w
unfolding digit
lt-pow_of_digits zero a none_set =
    let empty : a ≡ 0 = digit_ext a 0 (λ i. rw digit-zero (none_set i (omega arith))) in omega arith
lt-pow_of_digits (suc w) a none_set =
    omega (arith, pow-suc 2 w, lt-pow_of_digits w (a / 2) (λ i h. none_set (suc i) (omega arith)))
