-- ===== src/Prelude/Bits/Shift.antt =====
-- Digits of shifted and truncated numbers.
use Prim.Native.Nat.{ℕ, zero, suc, ◌+◌, ◌*◌, ◌/◌, ◌%◌, ◌^◌, ◌<◌}
use mathlib.Core.Path.{◌≡◌, ap, sym, ◌∙◌}
use native.Mathlib.Nat.{
  pow-suc, one-le-pow, div-div-eq-div-mul, mod-lt, mod-eq_of_lt, div-add-mod',
  add-mul-mod_self_right,
}
use native.Mathlib.Omega.{arith}
use rfish.Prelude.Bits.Digit.{digit}

pub digit-shr : (k i a : ℕ) → digit (a / 2 ^ k) i ≡ digit a (k + i)
unfolding digit
digit-shr zero i a =
    let same : a / 2 ^ 0 ≡ a = omega arith in
    let at : i ≡ 0 + i = omega arith in ap (λ b. digit b i) same ∙ ap (digit a) at
digit-shr (suc k) i a =
    let double : 2 ^ suc k ≡ 2 * 2 ^ k = omega (arith, pow-suc 2 k) in
    let at : suc (k + i) ≡ suc k + i = omega arith in
    ap (λ m. digit (a / m) i) double
    ∙ sym (ap (λ b. digit b i) (div-div-eq-div-mul a 2 (2 ^ k)))
    ∙ digit-shr k i (a / 2)
    ∙ ap (digit a) at

pub digit-shl_low : (k i a : ℕ) → i < k → digit (a * 2 ^ k) i ≡ 0
unfolding digit
digit-shl_low zero i a h = absurd (omega arith)
digit-shl_low (suc k) zero a h = omega (arith, ap (λ (t : ℕ). a * t) (pow-suc 2 k))
digit-shl_low (suc k) (suc i) a h =
    let half : a * 2 ^ suc k / 2 ≡ a * 2 ^ k = omega (arith, ap (λ (t : ℕ). a * t) (pow-suc 2 k)) in
    rw half (digit-shl_low k i a (omega arith))

pub digit-shl : (k i a : ℕ) → digit (a * 2 ^ k) (k + i) ≡ digit a i
unfolding digit
digit-shl zero i a =
    let same : a * 2 ^ 0 ≡ a = omega arith in let at : 0 + i ≡ i = omega arith in rw (same, at)
digit-shl (suc k) i a =
    let half : a * 2 ^ suc k / 2 ≡ a * 2 ^ k = omega (arith, ap (λ (t : ℕ). a * t) (pow-suc 2 k)) in
    let at : suc k + i ≡ suc (k + i) = omega arith in
    ap (digit (a * 2 ^ suc k)) at ∙ ap (λ b. digit b (k + i)) half ∙ digit-shl k i a

split-mod : (w a : ℕ) → (a % 2 ^ suc w % 2 ≡ a % 2) × (a % 2 ^ suc w / 2 ≡ a / 2 % 2 ^ w)
split-mod w a = (omega (arith, double, sum), omega (arith, double, sum, low))
  where
    double : 2 ^ suc w ≡ 2 ^ w * 2
    double = pow-suc 2 w

    sum : 2 * (a / 2 ^ suc w * 2 ^ w) + a % 2 ^ suc w ≡ a
    sum = omega (arith, div-add-mod' a (2 ^ suc w), ap (λ (t : ℕ). a / 2 ^ suc w * t) double)

    below : a % 2 ^ suc w / 2 < 2 ^ w
    below = omega (
      arith,
      double,
      one-le-pow w 2 (omega arith),
      mod-lt a {m = 2 ^ suc w} (omega (arith, double, one-le-pow w 2 (omega arith))),
    )

    low : a / 2 % 2 ^ w ≡ a % 2 ^ suc w / 2
    low =
        let whole : a / 2 ≡ a % 2 ^ suc w / 2 + a / 2 ^ suc w * 2 ^ w = omega (arith, sum) in
        rw whole
          (add-mul-mod_self_right (a % 2 ^ suc w / 2) (a / 2 ^ suc w) (2 ^ w) ∙ mod-eq_of_lt below)

pub digit-mod : (w i a : ℕ) → i < w → digit (a % 2 ^ w) i ≡ digit a i
unfolding digit
digit-mod zero i a h = absurd (omega arith)
digit-mod (suc w) zero a h = (split-mod w a).0
digit-mod (suc w) (suc i) a h =
    ap (λ b. digit b i) (split-mod w a).1 ∙ digit-mod w i (a / 2) (omega arith)
