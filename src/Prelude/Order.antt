-- ===== src/Prelude/Order.antt =====
-- `<` on the native numbers is well founded.
use Prim.Native.Nat.{ℕ, zero, suc, ◌<◌}
use mathlib.Core.WellFounded.{Acc, WellFounded}
use native.Mathlib.Omega.{arith}

below_is_accessible : (bound n : ℕ) → n < bound → Acc ◌<◌ n
below_is_accessible zero n h = elim h [ ]
below_is_accessible (suc bound) n h =
    Acc.intro n (λ m less. below_is_accessible bound m (omega arith))

unfoldable pub lt_wf : WellFounded ◌<◌
unfolding below_is_accessible
lt_wf = record { apply = λ n. below_is_accessible (suc n) n (omega arith) }
