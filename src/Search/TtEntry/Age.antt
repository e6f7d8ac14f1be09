-- ===== src/Search/TtEntry/Age.antt =====
-- The generation clock: ages count modulo 32, whatever the bound and PV bits hold.
use rfish.Prelude.{ℕ, ◌+◌, ◌-◌, ◌%◌, ◌<◌, ◌≡◌, arith, Bool}
use rfish.Prelude.Bits.{bit_and_mask}
use rfish.Board.Value.{Bound}
use rfish.Search.TtEntry.{relative_age, pack_gen_bound}
use rfish.Search.TtEntry.Main.{pack_gen_bound_lem, bound_index-lt, bit_of-lt}

pub relative_age_lem :
    (gen_bound current : ℕ)
    → gen_bound < 256
    → relative_age gen_bound current ≡ (current + 256 - gen_bound) % 256 % 32
unfolding relative_age
relative_age_lem gen_bound current h = bit_and_mask 5 ((current + 256 - gen_bound) % 256)

pub relative_age-lt : (gen_bound current : ℕ) → relative_age gen_bound current < 32
unfolding relative_age
relative_age-lt gen_bound current =
    omega (arith, bit_and_mask 5 ((current + 256 - gen_bound) % 256))

-- The age of an entry written in generation `cur_gen`, read `n` generations later on the clock of
-- 32, is `n`, whatever its bound and PV flag.
pub relative_age-pack :
    (cur_gen n : ℕ) (bound : Bound) (is_pv : Bool)
    → cur_gen < 32
    → n < 32
    → relative_age (pack_gen_bound cur_gen bound is_pv) ((cur_gen + n) % 32) ≡ n
relative_age-pack cur_gen n bound is_pv hg hn =
    let whole = pack_gen_bound_lem cur_gen bound is_pv hg in
    let b = bound_index-lt bound in
    let f = bit_of-lt is_pv in
    omega (
      arith,
      relative_age_lem (pack_gen_bound cur_gen bound is_pv) ((cur_gen + n) % 32) (omega arith),
    )
