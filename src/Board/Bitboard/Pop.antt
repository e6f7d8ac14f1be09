-- ===== src/Board/Bitboard/Pop.antt =====
-- Taking the squares of a board one by one.
use rfish.Prelude.{
  ℕ, zero, suc, ◌+◌, ◌-◌, ◌*◌, ◌/◌, ◌%◌, ◌^◌, ◌≤◌, ◌<◌, ◌≡◌, refl, arith, ap, ap₂, ◌∙◌,
}
use rfish.Prelude.{
  Bool, false, ◌==◌, if◌then◌else◌, bit_and, some, Bool-cases, inl, inr, List, [], ◌∷◌,
}
use rfish.Prelude.Bits.{digit, digit_ext, digit-bit_and, bit_and_fields, zero-bit_and, bit_and_step}
use native.Mathlib.Nat.{pow-suc, one-le-pow}
use rfish.Board.Square.{Square}
use rfish.Board.Bitboard.{Bitboard, trailing_zeros, pop_lsb, iter, squares, contains}
use rfish.Board.Bitboard.Members.{contains-digit}

-- The squares of the low `w` bits of `b`, numbered from `base`, in ascending order.
unfoldable pub members : ℕ → ℕ → Bitboard → List Square
members zero base b = []
members (suc w) base b =
    let rest = members w (base + 1) (b / 2) in if b % 2 == 1 then base ∷ rest else rest

bit_and_self : (a : ℕ) → bit_and a a ≡ a
bit_and_self a = digit_ext _ a (λ i. omega (arith, digit-bit_and i a a))

-- An odd number shifted: its lowest bit is the shift, and clearing it leaves the even number.
bit_and-pred : (k m : ℕ) → bit_and (suc (2 * m) * 2 ^ k) (suc (2 * m) * 2 ^ k - 1) ≡ 2 * m * 2 ^ k
bit_and-pred k m =
    let some_room : 1 ≤ 2 ^ k = one-le-pow k 2 (omega arith) in
    ground (
      arith,
      bit_and_fields k (suc (2 * m)) 0 (2 * m) (2 ^ k - 1),
      zero-bit_and (2 ^ k - 1),
      bit_and_step (suc (2 * m)) (2 * m),
      bit_and_self m,
      ap₂ bit_and (half_odd m) (half_even m),
    )
  where
    half_odd : (n : ℕ) → suc (2 * n) / 2 ≡ n
    half_odd n = omega arith

    half_even : (n : ℕ) → 2 * n / 2 ≡ n
    half_even n = omega arith

trailing_zeros-shl : (w k m : ℕ) → k < w → trailing_zeros w (suc (2 * m) * 2 ^ k) ≡ k
unfolding trailing_zeros
trailing_zeros-shl zero k m h = absurd (omega arith)
trailing_zeros-shl (suc w) zero m h = ground arith
trailing_zeros-shl (suc w) (suc k) m h = ground (
  arith,
  pow-suc 2 k,
  ap (λ (t : ℕ). suc (2 * m) * t) (pow-suc 2 k),
  ap (trailing_zeros w) (halve (suc (2 * m)) k),
  trailing_zeros-shl w k m,
)
  where
    halve : (a j : ℕ) → a * 2 ^ suc j / 2 ≡ a * 2 ^ j
    halve a j = omega (arith, ap (λ (t : ℕ). a * t) (pow-suc 2 j))

shl_next : (m k : ℕ) → m * 2 ^ (k + 1) ≡ 2 * (m * 2 ^ k)
shl_next m k =
    let next : k + 1 ≡ suc k = omega arith in
    omega (arith, ap (λ (t : ℕ). m * 2 ^ t) next, ap (λ (t : ℕ). m * t) (pow-suc 2 k))

-- Taking the lowest square of a board whose lower bits are empty.
pop_lsb-odd : (k m : ℕ) → k < 64 → pop_lsb (suc (2 * m) * 2 ^ k) ≡ some (k, m * 2 ^ (k + 1))
unfolding pop_lsb
pop_lsb-odd k m h =
    let some_room : 1 ≤ 2 ^ k = one-le-pow k 2 (omega arith) in
    let positive : (suc (2 * m) * 2 ^ k == 0) ≡ false = ground (arith, product) in
    let cleared : 2 * m * 2 ^ k ≡ m * 2 ^ (k + 1) = omega (arith, shifted) in
    rw (positive, pop_lsb)
      (λ i. some (trailing_zeros-shl 64 k m h i, (bit_and-pred k m ∙ cleared) i))
  where
    product : suc (2 * m) * 2 ^ k ≡ 2 * (m * 2 ^ k) + 2 ^ k
    product = omega arith

    shifted : m * 2 ^ (k + 1) ≡ 2 * (m * 2 ^ k)
    shifted = shl_next m k

iter-empty : (fuel : ℕ) → iter fuel 0 ≡ []
unfolding iter pop_lsb
iter-empty zero = refl
iter-empty (suc fuel) = refl

iter-odd :
    (fuel k m : ℕ)
    → k < 64
    → iter (suc fuel) (suc (2 * m) * 2 ^ k) ≡ k ∷ iter fuel (m * 2 ^ (k + 1))
unfolding iter
iter-odd fuel k m h = rw (pop_lsb-odd k m h, iter)

iter-members :
    (w fuel base m : ℕ)
    → m < 2 ^ w
    → base + w ≤ 64
    → w ≤ fuel
    → iter fuel (m * 2 ^ base) ≡ members w base m
unfolding members
iter-members zero fuel base m hm hb hf =
    let nothing : m * 2 ^ base ≡ 0 = omega (arith, ap (λ (t : ℕ). t * 2 ^ base) (below_one hm)) in
    ap (iter fuel) nothing ∙ iter-empty fuel
  where
    below_one : m < 2 ^ 0 → m ≡ 0
    below_one h = omega arith
iter-members (suc w) zero base m hm hb hf = absurd (omega arith)
iter-members (suc w) (suc fuel) base m hm hb hf = elim (Bool-cases (m % 2 == 1)) [
  | inl odd ↦
      let whole : m ≡ suc (2 * (m / 2)) = ground arith in
      rw odd (
        ap (λ t. iter (suc fuel) (t * 2 ^ base)) whole
        ∙ iter-odd fuel base (m / 2) (omega arith)
        ∙ ap (λ l. base ∷ l)
            (iter-members w fuel (base + 1) (m / 2) (omega (arith, pow-suc 2 w)) (omega arith)
              (omega arith)))
  | inr even ↦
      let whole : m * 2 ^ base ≡ m / 2 * 2 ^ (base + 1) = omega (
        arith,
        shl_next (m / 2) base,
        ap (λ (t : ℕ). t * 2 ^ base) (twice_half m (even_rem m even)),
      ) in
      rw even (
        ap (iter (suc fuel)) whole
        ∙ iter-members w (suc fuel) (base + 1) (m / 2) (omega (arith, pow-suc 2 w)) (omega arith)
            (omega arith))
]
  where
    even_rem : (n : ℕ) → (n % 2 == 1) ≡ false → n % 2 ≡ 0
    even_rem n h = ground arith

    twice_half : (n : ℕ) → n % 2 ≡ 0 → n ≡ 2 * (n / 2)
    twice_half n h = omega arith

-- The squares from `base` on, `w` of them, that pass the test, in ascending order.
unfoldable pub ascending : ℕ → ℕ → (Square → Bool) → List Square
ascending zero base p = []
ascending (suc w) base p =
    let rest = ascending w (base + 1) p in if p base then base ∷ rest else rest

members-ascending :
    (w base m : ℕ) (p : Square → Bool)
    → ((i : ℕ) → p (base + i) ≡ (digit m i == 1))
    → members w base m ≡ ascending w base p
unfolding members ascending digit
members-ascending zero base m p h = refl
members-ascending (suc w) base m p h =
    let first : p base ≡ (m % 2 == 1) = ap p (base_zero base) ∙ h 0 in
    let rest =
      members-ascending w (base + 1) (m / 2) p (λ i. ap p (base_next base i) ∙ h (suc i)) in
    rw (first, rest)
  where
    base_zero : (b : ℕ) → b ≡ b + 0
    base_zero b = omega arith

    base_next : (b i : ℕ) → b + 1 + i ≡ b + suc i
    base_next b i = omega arith

-- The iterator of a 64-bit board yields each of its squares once, in ascending order: the 64 rounds of
-- fuel are enough.
pub squares-ascending : (b : Bitboard) → b < 2 ^ 64 → squares b ≡ ascending 64 0 (contains b)
unfolding squares
squares-ascending b h =
    ap (iter 64) (unshifted b)
    ∙ iter-members 64 64 0 b h (omega arith) (omega arith)
    ∙ members-ascending 64 0 b (contains b)
        (λ i. ap (contains b) (from_zero i) ∙ contains-digit b i)
  where
    unshifted : (a : ℕ) → a ≡ a * 2 ^ 0
    unshifted a = omega arith

    from_zero : (i : ℕ) → 0 + i ≡ i
    from_zero i = omega arith
