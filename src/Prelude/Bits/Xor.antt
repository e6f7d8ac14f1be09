-- ===== src/Prelude/Bits/Xor.antt =====
-- The laws of exclusive or, and of the exclusive or of a table's entries.
use Prim.Native.Nat.{ℕ, zero, suc, ◌<◌, bit_xor}
use mathlib.Core.Path.{◌≡◌, refl, ap, ◌∙◌, sym}
use native.Mathlib.Omega.{arith}
use native.Mathlib.Decide.{ℕ_discrete}
use mathlib.Core.Logic.{◌≢◌}
use rfish.Prelude.Bits.Digit.{digit-lt, digit-zero, digit_ext, digit-bit_xor}

pub xor_zero : (a : ℕ) → bit_xor a 0 ≡ a
xor_zero a = digit_ext _ a (λ i. omega (arith, digit-bit_xor i a 0, digit-zero i, digit-lt a i))

xor_comm : (a b : ℕ) → bit_xor a b ≡ bit_xor b a
xor_comm a b = digit_ext _ _ (λ i. omega (arith, digit-bit_xor i a b, digit-bit_xor i b a))

pub zero_xor : (a : ℕ) → bit_xor 0 a ≡ a
zero_xor a = xor_comm 0 a ∙ xor_zero a

pub xor_assoc : (a b c : ℕ) → bit_xor (bit_xor a b) c ≡ bit_xor a (bit_xor b c)
xor_assoc a b c = digit_ext _ _ (λ i. omega (
  arith,
  digit-bit_xor i (bit_xor a b) c,
  digit-bit_xor i a b,
  digit-bit_xor i a (bit_xor b c),
  digit-bit_xor i b c,
))

pub xor_self : (a : ℕ) → bit_xor a a ≡ 0
xor_self a = digit_ext _ 0 (λ i. omega (arith, digit-bit_xor i a a, digit-zero i))

-- A term moves past another.
pub xor_swap : (a b c : ℕ) → bit_xor (bit_xor a b) c ≡ bit_xor (bit_xor a c) b
xor_swap a b c = xor_assoc a b c ∙ ap (bit_xor a) (xor_comm b c) ∙ sym (xor_assoc a c b)

-- A term that is there twice is not there.
pub xor_cancel : (a b : ℕ) → bit_xor (bit_xor a b) b ≡ a
xor_cancel a b = xor_assoc a b b ∙ ap (bit_xor a) (xor_self b) ∙ xor_zero a

-- The exclusive or of the first `n` entries.
unfoldable pub xor_below : ℕ → (ℕ → ℕ) → ℕ
xor_below zero f = 0
xor_below (suc n) f = bit_xor (xor_below n f) (f n)

pub xor_below_ext :
    (n : ℕ) (f g : ℕ → ℕ) → ((i : ℕ) → i < n → f i ≡ g i) → xor_below n f ≡ xor_below n g
unfolding xor_below
xor_below_ext zero f g same = refl
xor_below_ext (suc n) f g same =
    let rest = xor_below_ext n f g (λ i h. same i (omega arith)) in rw (same n (omega arith), rest)

-- A table that differs in one entry: the old entry leaves and the new one enters.
pub xor_below_change :
    (n : ℕ) (f g : ℕ → ℕ) (k : ℕ)
    → k < n
    → ((i : ℕ) → k ≢ i → g i ≡ f i)
    → xor_below n g ≡ bit_xor (xor_below n f) (bit_xor (f k) (g k))
unfolding xor_below
xor_below_change zero f g k h same = absurd (omega arith)
xor_below_change (suc n) f g k h same = elim (ℕ_discrete k n) [
  | yes e ↦
      let below = xor_below_ext n g f (λ i hi. same i (λ at. omega arith)) in
      rw (below, e) (swap_last (xor_below n f) (f n) (g n))
  | no ne ↦
      rw (xor_below_change n f g k (omega arith) same, same n ne)
        (xor_swap (xor_below n f) (bit_xor (f k) (g k)) (f n))
]
  where
    swap_last : (a b c : ℕ) → bit_xor a c ≡ bit_xor (bit_xor a b) (bit_xor b c)
    swap_last a b c = sym (ap (λ t. bit_xor t c) (xor_cancel a b)) ∙ xor_assoc (bit_xor a b) b c
