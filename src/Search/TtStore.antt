-- ===== src/Search/TtStore.antt =====
-- crates/rfish-engine/src/search/tt.rs: the writes of one thread to the table (`store`, `penalize`)
-- and `hashfull`.
pub mod Slot
pub mod RoundTrip
pub mod Contract
pub mod Upkeep
use rfish.Prelude.{ℕ, zero, suc, ◌+◌, ◌-◌, ◌*◌, ◌/◌, ◌%◌, ◌^◌, min, Bool, true, false, not}
use rfish.Prelude.{◌&&◌, ◌||◌, ◌==◌, leb, ltb, if◌then◌else◌, Option, none, some, List, [], ◌∷◌}
use rfish.Prelude.{length, get_elem?, get_or, set, take, bit_and}
use rfish.Prelude.Int.{ℤ, pos, negsuc, ◌+ℤ◌, ◌-ℤ◌, ltb_ℤ, leb_ℤ, abs, from_u16, pos_part}
use rfish.Board.Move.{Move, is_none}
use rfish.Board.Value.{Value, Bound, no_bound, upper, lower, exact, is_decisive, value_infinite}
use rfish.Search.TtEntry.{TtData, cluster_size, depth_none, u8, u16, bit_of, relative_age}
use rfish.Search.TtEntry.{unpack_meta, pack_meta, pack_gen_bound, with_move, pack_main, bound_of}
use rfish.Search.Tt.{Cluster, TtProbe, TranspositionTable, generation8}

-- The arguments of `store` behind the probe.
pub record Entry : Type 0 where
  pub mv : Move
  pub value : Value
  pub eval : Value
  pub depth : ℤ
  pub bound : Bound
  pub is_pv : Bool

abbrev pub is_exact : Bound → Bool
is_exact exact = true
is_exact _ = false

-- `.clamp(0, 255) as u8`.
abbrev pub clamp_u8 : ℤ → ℕ
clamp_u8 (pos n) = min n 255
clamp_u8 (negsuc n) = 0

-- The move that the slot holds after the store.
unfoldable pub kept_move : ℕ → Bool → Move → ℕ
kept_move main same_key mv =
    if not (is_none mv) || not same_key then mv else bit_and (main / 2 ^ 16) 0xffff

-- The four conditions under which the entry is overwritten.
unfoldable pub replaces : Entry → Bool → ℕ → ℕ → ℕ → Bool
unfolding ◌+ℤ◌ ◌-ℤ◌
replaces e same_key old_depth8 old_gen cur_gen =
    is_exact e.bound
    || not same_key
    || ltb_ℤ (pos old_depth8 -ℤ pos 4) (e.depth -ℤ depth_none +ℤ pos (2 * bit_of e.is_pv))
    || not (relative_age old_gen cur_gen == 0)

-- Whether the entry that stays loses a ply of depth.
unfoldable pub ages : ℕ → ℕ → ℕ → Bool
unfolding ◌+ℤ◌
ages main old_depth8 old_gen =
    let v16 = from_u16 (main / 2 ^ 32) in
    leb_ℤ (pos 5) (pos old_depth8 +ℤ depth_none)
    && not (is_exact (bound_of old_gen))
    && ltb_ℤ (abs v16) value_infinite
    && is_decisive v16

unfoldable pub store_cluster : ℕ → TtProbe → Entry → Cluster → Cluster
unfolding kept_move replaces ages ◌-ℤ◌
store_cluster cur_gen p e c =
    let main = get_or c.main p.slot 0 in
    let (old_depth8, old_gen) = unpack_meta c.meta p.slot in
    let same_key = u16 main == p.key16 in
    let packed_move = kept_move main same_key e.mv in
    let moved = with_move main packed_move in
    let written = set c.main p.slot moved in
    if replaces e same_key old_depth8 old_gen cur_gen
    then record {
      main = set written p.slot (pack_main p.key16 packed_move e.value e.eval);
      meta =
          pack_meta c.meta p.slot (clamp_u8 (e.depth -ℤ depth_none))
            (pack_gen_bound cur_gen e.bound e.is_pv);
    }
    else if ages moved old_depth8 old_gen
    then record { main = written; meta = pack_meta c.meta p.slot (old_depth8 - 1) old_gen }
    else record { main = written; meta = c.meta }

-- A change of one cluster; an index past the table panics.
unfoldable pub update_cluster :
    TranspositionTable → ℕ → (Cluster → Cluster) → Option TranspositionTable
update_cluster tt i f = elim (get_elem? tt.clusters i) [
  | none ↦ none
  | some c ↦ some (record tt { clusters = set tt.clusters i (f c) })
]

unfoldable pub store : TranspositionTable → TtProbe → Entry → Option TranspositionTable
unfolding store_cluster update_cluster
store tt p e = update_cluster tt p.cluster (store_cluster (generation8 tt) p e)

-- `(depth8 - penalty).max(0) as u8`.
abbrev reduced : ℕ → ℤ → ℕ
reduced depth8 penalty = u8 (pos_part (pos depth8 -ℤ penalty))

unfoldable pub penalize_cluster : TtProbe → ℤ → Cluster → Cluster
unfolding ◌-ℤ◌
penalize_cluster p penalty c =
    let (depth8, gen_bound) = unpack_meta c.meta p.slot in
    record c { meta = pack_meta c.meta p.slot (reduced depth8 penalty) gen_bound }

unfoldable pub penalize : TranspositionTable → TtProbe → ℤ → Option TranspositionTable
unfolding penalize_cluster update_cluster
penalize tt p penalty = update_cluster tt p.cluster (penalize_cluster p penalty)

counts : ℕ → ℕ → ℕ → ℕ → ℕ
counts cur_gen max_age meta slot =
    let (depth8, gen_bound) = unpack_meta meta slot in
    bit_of (not (depth8 == 0) && leb (relative_age gen_bound cur_gen) max_age)

used_in : ℕ → ℕ → List Cluster → ℕ
unfolding counts
used_in cur_gen max_age [] = 0
used_in cur_gen max_age (c ∷ cs) =
    counts cur_gen max_age c.meta 0
    + counts cur_gen max_age c.meta 1
    + counts cur_gen max_age c.meta 2
    + used_in cur_gen max_age cs

unfoldable pub hashfull : TranspositionTable → ℕ → ℕ
unfolding used_in
hashfull tt max_age =
    let n = min 1000 (length tt.clusters) in
    if n == 0 then 0 else used_in (generation8 tt) max_age (take n tt.clusters) / cluster_size
