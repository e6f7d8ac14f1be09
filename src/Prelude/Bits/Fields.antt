-- ===== src/Prelude/Bits/Fields.antt =====
-- Words made of fields: `|` of disjoint fields is a sum, `&` with a low mask a remainder, and both
-- go field by field.
use Prim.Native.Nat.{ℕ, zero, suc, ◌+◌, ◌-◌, ◌*◌, ◌/◌, ◌%◌, ◌^◌, ◌≤◌, ◌<◌, min, max}
use Prim.Native.Nat.{bit_and, bit_or, bit_and-bitwise, bit_or-bitwise}
use mathlib.Core.Path.{◌≡◌, ap}
use native.Mathlib.Nat.{pow-suc, one-le-pow, div-add-mod', mod-lt, pow-le-pow_right}
use native.Mathlib.Omega.{arith}
use rfish.Prelude.Bits.Step.{bit_and_step, bit_or_step}
use rfish.Prelude.Bits.Digit.{digit_ext, digit-bit_and, digit-bit_or, digit-zero}

-- A high field over a low one of `k` bits.
abbrev pub word : ℕ → ℕ → ℕ → ℕ
word k q r = q * 2 ^ k + r

pub zero-bit_and : (b : ℕ) → bit_and 0 b ≡ 0
zero-bit_and b = bit_and-bitwise 0 b

pub zero-bit_or : (b : ℕ) → bit_or 0 b ≡ b
zero-bit_or b = bit_or-bitwise 0 b

pub bit_and-zero : (a : ℕ) → bit_and a 0 ≡ 0
bit_and-zero a = digit_ext _ 0 (λ i. omega (arith, digit-bit_and i a 0, digit-zero i))

pub bit_or-zero : (a : ℕ) → bit_or a 0 ≡ a
bit_or-zero a = digit_ext _ a (λ i. omega (arith, digit-bit_or i a 0, digit-zero i))

halve : (k q r : ℕ) → word (suc k) q r / 2 ≡ word k q (r / 2)
halve k q r = omega (arith, ap (λ (t : ℕ). q * t) (pow-suc 2 k))

low_digit : (k q r : ℕ) → word (suc k) q r % 2 ≡ r % 2
low_digit k q r = omega (arith, ap (λ (t : ℕ). q * t) (pow-suc 2 k))

module _ (f : ℕ → ℕ → ℕ) (d : ℕ → ℕ → ℕ)
    (step : (a b : ℕ) → f a b ≡ f (a / 2) (b / 2) * 2 + d (a % 2) (b % 2))
    (none_left : f 0 0 ≡ 0) where
  -- An operation on digits goes field by field.
  split_fields :
      (k q r q' r' : ℕ)
      → r < 2 ^ k
      → r' < 2 ^ k
      → f (word k q r) (word k q' r') ≡ f q q' * 2 ^ k + f r r'
  split_fields zero q r q' r' h h' = ground (arith, none_left)
  split_fields (suc k) q r q' r' h h' = omega (
    arith,
    joined,
    step r r',
    pow-suc 2 k,
    ap (λ (t : ℕ). f q q' * t) (pow-suc 2 k),
    split_fields k q (r / 2) q' (r' / 2) (omega (arith, pow-suc 2 k)) (omega (arith, pow-suc 2 k)),
  )
    where
      joined :
          f (word (suc k) q r) (word (suc k) q' r')
          ≡ f (word k q (r / 2)) (word k q' (r' / 2)) * 2 + d (r % 2) (r' % 2)
      joined = cc (
        step (word (suc k) q r) (word (suc k) q' r'),
        halve k q r,
        halve k q' r',
        low_digit k q r,
        low_digit k q' r',
      )

-- `&` and `|` of two words of the same fields.
pub bit_and_fields :
    (k q r q' r' : ℕ)
    → r < 2 ^ k
    → r' < 2 ^ k
    → bit_and (word k q r) (word k q' r') ≡ bit_and q q' * 2 ^ k + bit_and r r'
bit_and_fields = split_fields bit_and min bit_and_step (zero-bit_and 0)

pub bit_or_fields :
    (k q r q' r' : ℕ)
    → r < 2 ^ k
    → r' < 2 ^ k
    → bit_or (word k q r) (word k q' r') ≡ bit_or q q' * 2 ^ k + bit_or r r'
bit_or_fields = split_fields bit_or max bit_or_step (zero-bit_or 0)

-- Disjoint fields: the union is the sum.
pub bit_or_disjoint : (k q r : ℕ) → r < 2 ^ k → bit_or (q * 2 ^ k) r ≡ q * 2 ^ k + r
bit_or_disjoint k q r h =
    ground (
      arith,
      bit_or_fields k q 0 0 r (one-le-pow k 2 (omega arith)) h,
      bit_or-zero q,
      zero-bit_or r,
    )

bit_and_ones : (k r : ℕ) → r < 2 ^ k → bit_and r (2 ^ k - 1) ≡ r
bit_and_ones zero r h = omega (arith, bit_and-zero r)
bit_and_ones (suc k) r h = omega (
  arith,
  pow-suc 2 k,
  one-le-pow k 2 (omega arith),
  bit_and_step r (2 ^ suc k - 1),
  ap (λ (t : ℕ). bit_and (r / 2) t) half,
  bit_and_ones k (r / 2) (omega (arith, pow-suc 2 k)),
)
  where
    half : (2 ^ suc k - 1) / 2 ≡ 2 ^ k - 1
    half = omega (arith, pow-suc 2 k, one-le-pow k 2 (omega arith))

-- A mask of `k` low ones is the remainder by `2 ^ k`.
pub bit_and_mask : (k a : ℕ) → bit_and a (2 ^ k - 1) ≡ a % 2 ^ k
bit_and_mask k a =
    let some_room : 1 ≤ 2 ^ k = one-le-pow k 2 (omega arith) in
    ground (
      arith,
      div-add-mod' a (2 ^ k),
      mod-lt a {m = 2 ^ k} some_room,
      bit_and_fields k (a / 2 ^ k) (a % 2 ^ k) 0 (2 ^ k - 1),
      bit_and-zero (a / 2 ^ k),
      bit_and_ones k (a % 2 ^ k),
    )

-- A mask of a low and a high run of ones clears the field between them.
pub bit_and_gap :
    (n h k a : ℕ)
    → k ≤ n
    → bit_and a (word n (2 ^ h - 1) (2 ^ k - 1)) ≡ word n (a / 2 ^ n % 2 ^ h) (a % 2 ^ n % 2 ^ k)
bit_and_gap n h k a le =
    let some_room : 1 ≤ 2 ^ n = one-le-pow n 2 (omega arith) in
    let wider : 2 ^ k ≤ 2 ^ n = pow-le-pow_right (omega arith) le in
    let has_one : 1 ≤ 2 ^ k = one-le-pow k 2 (omega arith) in
    ground (
      arith,
      div-add-mod' a (2 ^ n),
      mod-lt a {m = 2 ^ n} some_room,
      bit_and_fields n (a / 2 ^ n) (a % 2 ^ n) (2 ^ h - 1) (2 ^ k - 1),
      bit_and_mask h (a / 2 ^ n),
      bit_and_mask k (a % 2 ^ n),
    )
