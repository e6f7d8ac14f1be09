-- ===== src/Search/History/Gravity.antt =====
-- The gravity rule keeps an entry within its table's limit, and moves it the way of the bonus.
use rfish.Prelude.{ℕ, suc, ◌+◌, ◌-◌, ◌*◌, ◌/◌, ◌≤◌, ◌<◌, ◌≡◌, ◌∙◌, ap, arith}
use rfish.Prelude.Int.{
  ℤ, pos, negsuc, neg, abs, abs_ℕ, ◌+ℤ◌, ◌-ℤ◌, ◌*ℤ◌, ◌≤ℤ◌, quot, to_u16, from_u16,
}
use rfish.Prelude.Int.{from_u16-to_u16}
use native.Mathlib.Decide.{dec_lt}
use native.Mathlib.Nat.{
  mul-add, add-mul, mul_comm, mul-le-mul_left, mul-le-mul_right, le-div_iff_mul-le,
  div-le_of_le-mul,
}
use rfish.Search.History.{Bonus, apply_gravity, clamp}

mul_gap : (l a b : ℕ) → a ≤ l → b ≤ l → (a + b) * l ≤ l * l + a * b
mul_gap l a b p q =
    let y = l - b in
    let whole : l ≡ b + y = omega arith in
    let first : a * l ≡ a * b + a * y = ap (λ (t : ℕ). a * t) whole ∙ mul-add a b y in
    let second : l * l ≡ l * b + l * y = ap (λ (t : ℕ). l * t) whole ∙ mul-add l b y in
    omega (arith, first, second, mul-le-mul_right y p, add-mul a b l, mul_comm l b)

-- What the rule takes away is at most either factor, and enough to stay within the limit.
pull_bounds :
    (l a b : ℕ)
    → 0 < l
    → a ≤ l
    → b ≤ l
    → (a * b / l ≤ a) × (a * b / l ≤ b) × (a + b ≤ l + a * b / l)
pull_bounds l a b some_limit p q =
    let product : a * b ≤ l * a = rw (mul_comm l a) (mul-le-mul_left a q) in
    let rest : (a + b - l) * l ≤ a * b = elim (dec_lt (a + b) l) [
      | yes h ↦ let nothing : a + b - l ≡ 0 = omega arith in rw nothing (omega arith)
      | no h ↦
          let whole : a + b ≡ l + (a + b - l) = omega arith in
          let split : (a + b) * l ≡ l * l + (a + b - l) * l =
            ap (λ (t : ℕ). t * l) whole ∙ add-mul l (a + b - l) l in
          omega (arith, mul_gap l a b p q, split)
    ] in
    (
      div-le_of_le-mul l product,
      div-le_of_le-mul l (mul-le-mul_right b p),
      omega (arith, (le-div_iff_mul-le some_limit).1 rest),
    )

-- The value before the cast, for a bonus within the limit.
abbrev moved : ℕ → ℤ → ℤ → ℤ
moved limit v b = v +ℤ b -ℤ quot (v *ℤ abs b) limit

-- Where an update may take an entry.
abbrev Moves : ℕ → ℤ → ℤ → ℤ → Type 0
Moves limit v b w = (abs_ℕ w ≤ limit) × (pos 0 ≤ℤ b → v ≤ℤ w) × (b ≤ℤ pos 0 → w ≤ℤ v)

moved_bounds :
    (limit : ℕ) (v b : ℤ)
    → 0 < limit
    → abs_ℕ v ≤ limit
    → abs_ℕ b ≤ limit
    → Moves limit v b (moved limit v b)
unfolding ◌+ℤ◌ ◌-ℤ◌ ◌*ℤ◌ quot
moved_bounds limit (pos n) (pos m) some_limit p q =
    ground (arith, pull_bounds limit n m some_limit (omega arith) (omega arith))
moved_bounds limit (pos n) (negsuc m) some_limit p q =
    ground (arith, pull_bounds limit n (suc m) some_limit (omega arith) (omega arith))
moved_bounds limit (negsuc n) (pos m) some_limit p q =
    ground (arith, pull_bounds limit (suc n) m some_limit (omega arith) (omega arith))
moved_bounds limit (negsuc n) (negsuc m) some_limit p q =
    ground (arith, pull_bounds limit (suc n) (suc m) some_limit (omega arith) (omega arith))

clamp_bounds :
    (limit : ℕ) (bonus : ℤ)
    → let b = clamp (neg (pos limit)) (pos limit) bonus in
      (abs_ℕ b ≤ limit) × (pos 0 ≤ℤ bonus → pos 0 ≤ℤ b) × (bonus ≤ℤ pos 0 → b ≤ℤ pos 0)
unfolding neg
clamp_bounds limit (pos n) = ground arith
clamp_bounds limit (negsuc n) = ground arith

-- The cast loses nothing of a small number.
pub narrow : (v : ℤ) → abs_ℕ v ≤ 32767 → from_u16 (to_u16 v) ≡ v
narrow v small = from_u16-to_u16 v (omega arith) (omega arith)

pub apply_gravity_bounds :
    (limit : ℕ) (v : ℤ) (bonus : Bonus)
    → 0 < limit
    → limit ≤ 32767
    → abs_ℕ v ≤ limit
    → (abs_ℕ (apply_gravity limit v bonus) ≤ limit)
      × (pos 0 ≤ℤ bonus → v ≤ℤ apply_gravity limit v bonus)
      × (bonus ≤ℤ pos 0 → apply_gravity limit v bonus ≤ℤ v)
unfolding apply_gravity
apply_gravity_bounds limit v bonus some_limit small within =
    let b = clamp (neg (pos limit)) (pos limit) bonus in
    let inside = clamp_bounds limit bonus in
    let result = moved_bounds limit v b some_limit within inside.0 in
    let exact = narrow (moved limit v b) (omega (arith, result.0)) in
    rw exact (result.0, (λ up. result.1 (inside.1 up)), (λ down. result.2 (inside.2 down)))

-- A bonus never lowers an entry that is within its limit, and leaves it within the limit, for every
-- limit that sixteen bits hold.
pub apply_gravity_bonus :
    (limit : ℕ) (v : ℤ) (bonus : Bonus)
    → 0 < limit
    → limit ≤ 32767
    → abs_ℕ v ≤ limit
    → pos 0 ≤ℤ bonus
    → (abs_ℕ (apply_gravity limit v bonus) ≤ limit) × (v ≤ℤ apply_gravity limit v bonus)
apply_gravity_bonus limit v bonus some_limit small within side =
    let r = apply_gravity_bounds limit v bonus some_limit small within in (r.0, r.1 side)

-- A malus never raises an entry that is within its limit, and leaves it within the limit, for every
-- limit that sixteen bits hold.
pub apply_gravity_malus :
    (limit : ℕ) (v : ℤ) (bonus : Bonus)
    → 0 < limit
    → limit ≤ 32767
    → abs_ℕ v ≤ limit
    → bonus ≤ℤ pos 0
    → (abs_ℕ (apply_gravity limit v bonus) ≤ limit) × (apply_gravity limit v bonus ≤ℤ v)
apply_gravity_malus limit v bonus some_limit small within side =
    let r = apply_gravity_bounds limit v bonus some_limit small within in (r.0, r.2 side)
