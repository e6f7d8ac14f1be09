-- ===== src/Prelude/Bits/Step.antt =====
-- One equation for the lowest digit of each bit operation: the native definition's count of
-- digits to go, for which it uses the first number, is dropped.
use Prim.Native.Nat.{ℕ, zero, suc, ◌+◌, ◌*◌, ◌/◌, ◌%◌, ◌≤◌, ◌<◌, min, max, digits, bitwise, differ}
use Prim.Native.Nat.{bit_and, bit_or, bit_xor, bit_and-bitwise, bit_or-bitwise, bit_xor-bitwise}
use mathlib.Core.Path.{◌≡◌, refl}
use native.Mathlib.Nat.{le_refl}
use native.Mathlib.Omega.{arith}

module _ (rest : ℕ → ℕ) (op : ℕ → ℕ → ℕ) where
  -- Any two counts that cover the first number give the same digits.
  digits_enough :
      (fuel more x y : ℕ) → x ≤ more → x ≤ fuel → digits rest op fuel x y ≡ digits rest op more x y
  digits_enough (suc fuel) (suc more) (suc x) y covers spans =
      let half : suc x / 2 ≤ fuel = omega arith in
      omega (arith, digits_enough fuel more (suc x / 2) (y / 2) (omega arith) half)
  digits_enough (suc fuel) (suc more) zero y covers spans = refl
  digits_enough (suc fuel) zero (suc x) y covers spans = absurd (omega arith)
  digits_enough (suc fuel) zero zero y covers spans = refl
  digits_enough zero (suc more) (suc x) y covers spans = absurd (omega arith)
  digits_enough zero (suc more) zero y covers spans = refl
  digits_enough zero zero x y covers spans = refl

  bitwise_step :
      (m n : ℕ)
      → bitwise rest op (suc m) n ≡ bitwise rest op (suc m / 2) (n / 2) * 2 + op (suc m % 2) (n % 2)
  bitwise_step m n =
      let cover : suc m / 2 ≤ m = omega arith in
      omega (arith, digits_enough m (suc m / 2) (suc m / 2) (n / 2) (le_refl _) cover)

differ_digits : (x y : ℕ) → x < 2 → y < 2 → differ x y ≡ (x + y) % 2
differ_digits zero y p q = omega arith
differ_digits (suc zero) zero p q = refl
differ_digits (suc zero) (suc zero) p q = refl
differ_digits (suc zero) (suc (suc y)) p q = absurd (omega arith)
differ_digits (suc (suc x)) y p q = absurd (omega arith)

pub bit_xor_step : (m n : ℕ) → bit_xor m n ≡ bit_xor (m / 2) (n / 2) * 2 + (m + n) % 2
bit_xor_step zero n = simp bit_xor-bitwise (omega arith)
bit_xor_step (suc m) n = simp bit_xor-bitwise (
    omega (
      arith,
      bitwise_step (λ digit. digit) differ m n,
      differ_digits (suc m % 2) (n % 2) (omega arith) (omega arith),
    ))

pub bit_and_step : (m n : ℕ) → bit_and m n ≡ bit_and (m / 2) (n / 2) * 2 + min (m % 2) (n % 2)
bit_and_step zero n = simp bit_and-bitwise (omega arith)
bit_and_step (suc m) n = simp bit_and-bitwise (bitwise_step (λ digit. 0) min m n)

pub bit_or_step : (m n : ℕ) → bit_or m n ≡ bit_or (m / 2) (n / 2) * 2 + max (m % 2) (n % 2)
bit_or_step zero n = simp bit_or-bitwise (omega arith)
bit_or_step (suc m) n = simp bit_or-bitwise (bitwise_step (λ digit. digit) max m n)
