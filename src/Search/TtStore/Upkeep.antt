-- ===== src/Search/TtStore/Upkeep.antt =====
-- Penalties, clearing and the fill gauge.
use rfish.Search.Tt.Resize.{empty_meta_misses}
use rfish.Prelude.{ℕ, zero, suc, ◌-◌, ◌*◌, ◌%◌, ◌^◌, ◌≤◌, ◌<◌, ◌≡◌, ◌≢◌, refl, arith, ap, ◌∙◌, min}
use rfish.Prelude.{false, some, List, [], ◌∷◌, map}
use rfish.Prelude.{length, take, get_elem?}
use rfish.Prelude.Int.{pos}
use rfish.Search.TtEntry.{unpack_meta, pack_meta}
use rfish.Search.TtEntry.Main.{bit_of-lt}
use rfish.Search.TtEntry.Meta.{unpack_meta-lt, unpack-pack_self, unpack-pack_ne}
use rfish.Search.Tt.{Cluster, TtProbe, TranspositionTable, clear, clear_cluster, probe}
use rfish.Search.Tt.{cluster_of, generation8}
use rfish.Search.Tt.Invariant.{IsCluster}
use rfish.Search.Tt.Probe.{Handles, probe_read}
use rfish.Search.TtStore.{penalize_cluster, hashfull, used_in, counts}

-- The new depth byte of a penalised slot.
penalized_meta :
    (p : TtProbe) (n : ℕ) (c : Cluster)
    → (penalize_cluster p (pos n) c).meta
      ≡ pack_meta c.meta p.slot ((unpack_meta c.meta p.slot).0 - n) (unpack_meta c.meta p.slot).1
unfolding penalize_cluster
penalized_meta p n c =
    let bytes = unpack_meta-lt c.meta p.slot in
    ap (λ d. pack_meta c.meta p.slot d (unpack_meta c.meta p.slot).1) (ground arith)

-- In a well-formed cluster, a penalty that is not negative lowers the depth byte of the probe's slot,
-- not below 0, and changes nothing else: the
-- words, the slot's generation, bound and flag, and the other slots stay.
pub penalize_slots :
    (p : TtProbe) (n : ℕ) (c : Cluster) (other : ℕ)
    → IsCluster c
    → Handles p c
    → other < 3
    → p.slot ≢ other
    → let after = penalize_cluster p (pos n) c in
      (after.main ≡ c.main)
      × (unpack_meta after.meta p.slot
          ≡ ((unpack_meta c.meta p.slot).0 - n, (unpack_meta c.meta p.slot).1))
      × (unpack_meta after.meta other ≡ unpack_meta c.meta other)
unfolding penalize_cluster
penalize_slots p n c other shape handle ho ne =
    let bytes = unpack_meta-lt c.meta p.slot in
    let (d, g) = unpack_meta c.meta p.slot in
    (
      refl,
      ap (λ m. unpack_meta m p.slot) (penalized_meta p n c)
          ∙ unpack-pack_self c.meta p.slot (d - n) g shape.meta_word handle.in_cluster (omega arith)
              (omega arith),
      ap (λ m. unpack_meta m other) (penalized_meta p n c)
          ∙ unpack-pack_ne c.meta p.slot other (d - n) g shape.meta_word handle.in_cluster ho ne
              (omega arith) (omega arith),
    )

cleared_meta :
    (cs : List Cluster) (i : ℕ) (c : Cluster)
    → get_elem? (map clear_cluster cs) i ≡ some c
    → c.meta ≡ 0
unfolding clear_cluster
cleared_meta [] i c h = cc
cleared_meta (d ∷ cs) zero c h = ground arith
cleared_meta (d ∷ cs) (suc i) c h = cleared_meta cs i c h

-- Nothing is found in a cleared table.
pub clear_forgets :
    (table : TranspositionTable) (key : ℕ) (p : TtProbe)
    → probe (clear table) key ≡ some p
    → p.hit ≡ false
unfolding clear
clear_forgets table key p e =
    let (c, found, whole) = probe_read (clear table) key p e in
    let empty = cleared_meta table.clusters (cluster_of (clear table) key) c found in
    ap (λ (q : TtProbe). q.hit) whole
    ∙ empty_meta_misses (clear table) (cluster_of (clear table) key) (key % 2 ^ 16) c empty

counts-le : (cur_gen max_age meta slot : ℕ) → counts cur_gen max_age meta slot ≤ 1
unfolding counts
counts-le cur_gen max_age meta slot = omega (arith, bit_of-lt)

length-take_le {ℓ} : {A : Type ℓ} (n : ℕ) (xs : List A) → length (take n xs) ≤ n
length-take_le zero xs = omega arith
length-take_le (suc n) [] = omega arith
length-take_le (suc n) (x ∷ xs) = omega (arith, length-take_le n xs)

used_in-le : (cur_gen max_age : ℕ) (cs : List Cluster) → used_in cur_gen max_age cs ≤ 3 * length cs
unfolding used_in
used_in-le cur_gen max_age [] = omega arith
used_in-le cur_gen max_age (c ∷ cs) = omega (
  arith,
  counts-le cur_gen max_age c.meta 0,
  counts-le cur_gen max_age c.meta 1,
  counts-le cur_gen max_age c.meta 2,
  used_in-le cur_gen max_age cs,
)

-- The fill gauge is in per mille.
pub hashfull-le : (table : TranspositionTable) (max_age : ℕ) → hashfull table max_age ≤ 1000
unfolding hashfull
hashfull-le table max_age =
    let n = min 1000 (length table.clusters) in
    ground (
      arith,
      used_in-le (generation8 table) max_age (take n table.clusters),
      length-take_le n table.clusters,
    )
