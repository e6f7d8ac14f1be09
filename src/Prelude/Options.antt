-- ===== src/Prelude/Options.antt =====
-- Chains of steps that may panic, for do blocks.
use mathlib.Core.Path.{◌≡◌, ap, subst}
use mathlib.Core.Bool.{Bool, true, false}
use mathlib.Core.Option.{Option, none, some}
use rfish.Prelude.Tests.{if◌then◌else◌}

infixl 10 ◌>>=◌
abbrev pub ◌>>=◌ {ℓ κ} : {A : Type ℓ} {B : Type κ} → Option A → (A → Option B) → Option B
none >>= k = none
some a >>= k = k a

-- A chain whose first step returns is the rest at what it returns.
pub >>=-some {ℓ κ} :
    {A : Type ℓ} {B : Type κ} (o : Option A) (k : A → Option B) {a : A}
    → o ≡ some a
    → (o >>= k) ≡ k a
>>=-some o k found = ap (λ x. x >>= k) found

-- What every result of a chain satisfies.
abbrev pub Holds {ℓ κ} : {A : Type ℓ} → (A → Type κ) → Option A → Type κ
Holds P none = Unit
Holds P (some a) = P a

pub Holds-bind {ℓ κ μ} :
    {A : Type ℓ} {B : Type κ} (P : B → Type μ) (o : Option A) (k : A → Option B)
    → ((a : A) → Holds P (k a))
    → Holds P (o >>= k)
Holds-bind P none k h = tt
Holds-bind P (some a) k h = h a

pub Holds-some {ℓ κ} :
    {A : Type ℓ} (P : A → Type κ) (o : Option A) {a : A} → Holds P o → o ≡ some a → P a
Holds-some P o h e = subst (Holds P) e h

pub if_both {ℓ κ} :
    {A : Type ℓ} (P : A → Type κ) (c : Bool) (a b : A) → P a → P b → P (if c then a else b)
if_both P true a b ha hb = ha
if_both P false a b ha hb = hb

pub Holds-next {ℓ κ μ ν} :
    {A : Type ℓ} {B : Type κ} (P : B → Type μ) (Q : A → Type ν) (o : Option A) (k : A → Option B)
    → Holds Q o
    → ((a : A) → Q a → Holds P (k a))
    → Holds P (o >>= k)
Holds-next P Q none k h next = tt
Holds-next P Q (some a) k h next = next a h

pub Holds-map {ℓ κ μ} :
    {A : Type ℓ} (P : A → Type κ) (Q : A → Type μ) (o : Option A)
    → Holds P o
    → ((a : A) → P a → Q a)
    → Holds Q o
Holds-map P Q none h next = tt
Holds-map P Q (some a) h next = next a h
