-- ===== src/Prelude/Arrays.antt =====
-- A fixed array as the function of its indices, and writes to it.
use Prim.Native.Nat.{ℕ}
use rfish.Prelude.Tests.{◌==◌, if◌then◌else◌}

abbrev pub modify {ℓ} : {A : Type ℓ} → (ℕ → A) → ℕ → (A → A) → ℕ → A
modify f i g j = if i == j then g (f j) else f j

abbrev pub update {ℓ} : {A : Type ℓ} → (ℕ → A) → ℕ → A → ℕ → A
update f i v j = if i == j then v else f j
