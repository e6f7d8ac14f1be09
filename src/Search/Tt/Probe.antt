-- ===== src/Search/Tt/Probe.antt =====
-- What a probe answers: it is total, and its handle is a slot of the key's cluster.
use rfish.Prelude.{ℕ, ◌^◌, ◌<◌, ◌≡◌, arith, ap, subst, sym, ◌∙◌}
use rfish.Prelude.{false, ◌==◌, not, Option-cases, ◌⊎◌, inl, inr, none, some}
use rfish.Prelude.{get_or, get_elem?, All-get_elem?, get_elem?-of_lt}
use rfish.Search.TtEntry.{u16, unpack_meta, decode, empty_data}
use rfish.Search.Tt.{
  Cluster, TtProbe, TranspositionTable, matching_slot, probe, probe_cluster, victim_of, generation8,
  cluster_of, cluster_count,
}
use rfish.Search.Tt.Invariant.{IsCluster, IsTable, cluster_of-lt}
use rfish.Search.Tt.Victim.{victim_of_least, matching_slot-some}

some_injective : {A : Type 0} (x y : A) → some x ≡ some y → x ≡ y
some_injective x y h = cc

some_ne_none : {A : Type 0} (x : A) → some x ≡ none → ⊥
some_ne_none x h = cc

-- A probe's handle on the cluster: the slot of the key's first match, or any slot on a miss.
pub record Handles (p : TtProbe) (c : Cluster) : Type 0 where
  pub in_cluster : p.slot < 3
  pub fragment : p.key16 < 65536
  pub first :
      (matching_slot c.main 0 p.key16 ≡ none) ⊎ (matching_slot c.main 0 p.key16 ≡ some p.slot)

module _ (table : TranspositionTable) (cluster key16 : ℕ) (c : Cluster) where
  pub probe_cluster_miss :
      matching_slot c.main 0 key16 ≡ none
      → probe_cluster table cluster key16 c ≡ record {
        hit = false;
        found = empty_data;
        cluster = cluster;
        slot = victim_of (generation8 table) c.meta;
        key16 = key16;
      }
  unfolding probe_cluster
  probe_cluster_miss h = rw (h, probe_cluster)

  pub probe_cluster_match :
      (slot : ℕ)
      → matching_slot c.main 0 key16 ≡ some slot
      → probe_cluster table cluster key16 c ≡ record {
        hit = not ((unpack_meta c.meta slot).0 == 0);
        found =
            decode (get_or c.main slot 0) (unpack_meta c.meta slot).0 (unpack_meta c.meta slot).1;
        cluster = cluster;
        slot = slot;
        key16 = key16;
      }
  unfolding probe_cluster
  probe_cluster_match slot h = rw (h, probe_cluster)

  pub probe_cluster-place : (probe_cluster table cluster key16 c).cluster ≡ cluster
  probe_cluster-place = elim (Option-cases (matching_slot c.main 0 key16)) [
    | inl miss ↦ rw (probe_cluster_miss miss)
    | inr (slot, match) ↦ rw (probe_cluster_match slot match)
  ]

  pub probe_cluster-fragment : (probe_cluster table cluster key16 c).key16 ≡ key16
  probe_cluster-fragment = elim (Option-cases (matching_slot c.main 0 key16)) [
    | inl miss ↦ rw (probe_cluster_miss miss)
    | inr (slot, match) ↦ rw (probe_cluster_match slot match)
  ]

  pub probe_cluster-Handles :
      IsCluster c → key16 < 65536 → Handles (probe_cluster table cluster key16 c) c
  probe_cluster-Handles shape small = elim (Option-cases (matching_slot c.main 0 key16)) [
    | inl miss ↦ rw (probe_cluster_miss miss) (record {
      in_cluster = (victim_of_least (generation8 table) c.meta 0 (omega arith)).0;
      fragment = small;
      first = inl miss;
    })
    | inr (slot, match) ↦
        let (i, at, below, holds) = matching_slot-some c.main 0 key16 slot match in
        rw (probe_cluster_match slot match)
          (record { in_cluster = omega (arith, shape.three); fragment = small; first = inr match })
  ]

-- A probe reads the cluster that the key falls on.
pub probe_of_cluster :
    (table : TranspositionTable) (key : ℕ) (c : Cluster)
    → get_elem? table.clusters (cluster_of table key) ≡ some c
    → probe table key ≡ some (probe_cluster table (cluster_of table key) (u16 key) c)
unfolding probe
probe_of_cluster table key c h = rw (h, probe)

-- A probe of a well-formed table that has a cluster answers, for every 64-bit key, with a handle on the
-- key's fragment in a cluster of the table.
pub probe_total :
    (table : TranspositionTable) (key : ℕ)
    → IsTable table
    → key < 2 ^ 64
    → 0 < cluster_count table
    → (p : TtProbe) × (c : Cluster) × (probe table key ≡ some p)
      × (get_elem? table.clusters p.cluster ≡ some c)
      × (p.key16 ≡ u16 key)
      × Handles p c
unfolding cluster_count
probe_total table key h hk hn =
    let (c, there) =
      get_elem?-of_lt table.clusters (cluster_of table key) (cluster_of-lt table key hk hn) in
    let shape = All-get_elem? IsCluster table.clusters (cluster_of table key) c h.clusters there in
    let p = probe_cluster table (cluster_of table key) (u16 key) c in
    (
      p,
      c,
      probe_of_cluster table key c there,
      rw (probe_cluster-place table (cluster_of table key) (u16 key) c) there,
      probe_cluster-fragment table (cluster_of table key) (u16 key) c,
      probe_cluster-Handles table (cluster_of table key) (u16 key) c shape (omega arith),
    )

probe-none :
    (table : TranspositionTable) (key : ℕ)
    → get_elem? table.clusters (cluster_of table key) ≡ none
    → probe table key ≡ none
unfolding probe
probe-none table key h = rw (h, probe)

-- The handle that a probe gives belongs to the key's cluster.
pub probe-some :
    (table : TranspositionTable) (key : ℕ) (p : TtProbe) (c : Cluster)
    → IsTable table
    → probe table key ≡ some p
    → get_elem? table.clusters p.cluster ≡ some c
    → (p.cluster ≡ cluster_of table key)
      × (p.key16 ≡ u16 key)
      × Handles p c
      × (p ≡ probe_cluster table (cluster_of table key) (u16 key) c)
probe-some table key p c h e there =
    elim (Option-cases (get_elem? table.clusters (cluster_of table key))) [
      | inl missing ↦ absurd (some_ne_none p (sym e ∙ probe-none table key missing))
      | inr (c', found) ↦
          let q = probe_cluster table (cluster_of table key) (u16 key) c' in
          let same : q ≡ p = some_injective q p (sym (probe_of_cluster table key c' found) ∙ e) in
          let place = probe_cluster-place table (cluster_of table key) (u16 key) c' in
          let at : p.cluster ≡ cluster_of table key =
            ap (λ (r : TtProbe). r.cluster) (sym same) ∙ place in
          let one : c' ≡ c =
            some_injective c' c (sym found ∙ ap (get_elem? table.clusters) (sym at) ∙ there) in
          let shape = All-get_elem? IsCluster table.clusters p.cluster c h.clusters there in
          (
            at,
            ap (λ (r : TtProbe). r.key16) (sym same)
                ∙ probe_cluster-fragment table (cluster_of table key) (u16 key) c',
            subst (λ r. Handles r c)
                (ap (probe_cluster table (cluster_of table key) (u16 key)) (sym one) ∙ same)
                (probe_cluster-Handles table (cluster_of table key) (u16 key) c shape
                  (omega arith)),
            sym same ∙ ap (probe_cluster table (cluster_of table key) (u16 key)) one,
          )
    ]

-- A probe that answers has read the key's cluster.
pub probe_read :
    (table : TranspositionTable) (key : ℕ) (p : TtProbe)
    → probe table key ≡ some p
    → (c : Cluster) × (get_elem? table.clusters (cluster_of table key) ≡ some c)
      × (p ≡ probe_cluster table (cluster_of table key) (u16 key) c)
probe_read table key p e = elim (Option-cases (get_elem? table.clusters (cluster_of table key))) [
  | inl missing ↦ absurd (some_ne_none p (sym e ∙ probe-none table key missing))
  | inr (c, found) ↦ (
    c,
    found,
    some_injective p (probe_cluster table (cluster_of table key) (u16 key) c)
        (sym e ∙ probe_of_cluster table key c found),
  )
]
