-- ===== src/Search/TtStore/RoundTrip.antt =====
-- A store followed by a probe of the same key.
use rfish.Prelude.{ℕ, ◌<◌, ◌≡◌, arith, ap, ap₂, sym, ◌∙◌}
use rfish.Prelude.{true, false, ◌==◌, not, some}
use rfish.Prelude.{
  set, get_or, get_elem?, All-set, All-get_elem?, lt-of_get_elem?, get_elem?-set_self, length-set,
  get_or-set_self,
}
use rfish.Prelude.Int.{pos, ◌-ℤ◌, ◌+ℤ◌, ◌≤ℤ◌, i16_min, i16_max}
use rfish.Search.TtEntry.{TtData, depth_none, u16, unpack_meta, pack_gen_bound, decode}
use rfish.Search.TtEntry.Main.{decode-pack}
use rfish.Search.TtEntry.Meta.{unpack-pack_self}
use rfish.Search.Tt.{
  Cluster, TtProbe, TranspositionTable, probe, probe_cluster, generation8, cluster_of,
  cluster_count,
}
use rfish.Search.Tt.Invariant.{IsCluster, IsTable}
use rfish.Search.Tt.Probe.{Handles, probe_cluster_match, probe_of_cluster}
use rfish.Search.TtStore.{Entry, clamp_u8, store_cluster, store, update_cluster}
use rfish.Search.TtStore.Slot.{
  overwrites, new_move, new_word, store_cluster-overwrites, store_cluster-matching,
  store_cluster-IsCluster, new_move-lt, clamp_u8-lt, pack_gen_bound-lt,
}

-- The fields of an entry fit the table's.
pub record Fits (e : Entry) : Type 0 where
  pub mv16 : e.mv < 65536
  pub value_lo : i16_min ≤ℤ e.value
  pub value_hi : e.value ≤ℤ i16_max
  pub eval_lo : i16_min ≤ℤ e.eval
  pub eval_hi : e.eval ≤ℤ i16_max

generation8_lem :
    (table : TranspositionTable) → IsTable table → generation8 table ≡ table.generation
unfolding generation8
generation8_lem table h = omega arith

generation8-lt : (table : TranspositionTable) → IsTable table → generation8 table < 32
generation8-lt table h = rw (generation8_lem table h) h.generation

pub update_cluster-some :
    (table : TranspositionTable) (i : ℕ) (f : Cluster → Cluster) (c : Cluster)
    → get_elem? table.clusters i ≡ some c
    → update_cluster table i f ≡ some (record table { clusters = set table.clusters i (f c) })
unfolding update_cluster
update_cluster-some table i f c h = rw (h, update_cluster)

-- The table after the store.
abbrev pub stored : TranspositionTable → TtProbe → Entry → Cluster → TranspositionTable
stored table p e c = record table {
  clusters = set table.clusters p.cluster (store_cluster (generation8 table) p e c);
}

pub store-some :
    (table : TranspositionTable) (p : TtProbe) (e : Entry) (c : Cluster)
    → get_elem? table.clusters p.cluster ≡ some c
    → store table p e ≡ some (stored table p e c)
unfolding store
store-some table p e c h =
    update_cluster-some table p.cluster (store_cluster (generation8 table) p e) c h

cluster_of-set :
    (table : TranspositionTable) (i : ℕ) (c : Cluster) (key : ℕ)
    → cluster_of (record table { clusters = set table.clusters i c }) key ≡ cluster_of table key
unfolding cluster_of cluster_count
cluster_of-set table i c key = rw length-set

-- A store of a sixteen-bit move through a probe's handle succeeds and keeps the table well formed,
-- whatever it decides.
pub store-IsTable :
    (table : TranspositionTable) (p : TtProbe) (e : Entry) (c : Cluster)
    → IsTable table
    → get_elem? table.clusters p.cluster ≡ some c
    → Handles p c
    → e.mv < 65536
    → (store table p e ≡ some (stored table p e c)) × IsTable (stored table p e c)
store-IsTable table p e c h there handle mv16 = (
  store-some table p e c there,
  record {
    clusters =
        All-set IsCluster table.clusters p.cluster (store_cluster (generation8 table) p e c)
          h.clusters
          (store_cluster-IsCluster (generation8 table) p e c
            (All-get_elem? IsCluster table.clusters p.cluster c h.clusters there) handle
            (generation8-lt table h) mv16);
    generation = h.generation;
  },
)

-- What an overwriting store leaves for a reader.
abbrev pub kept_data : TranspositionTable → TtProbe → Entry → Cluster → TtData
kept_data table p e c = record {
  mv = new_move (generation8 table) p e c;
  value = e.value;
  eval = e.eval;
  depth = depth_none +ℤ pos (clamp_u8 (e.depth -ℤ depth_none));
  bound = e.bound;
  is_pv = e.is_pv;
}

module _ (table : TranspositionTable) (key : ℕ) (p : TtProbe) (e : Entry) (c : Cluster)
    (h : IsTable table) (place : p.cluster ≡ cluster_of table key) (fragment : p.key16 ≡ u16 key)
    (there : get_elem? table.clusters p.cluster ≡ some c) (handle : Handles p c)
    (fits : Fits e) where
  shape : IsCluster c
  shape = All-get_elem? IsCluster table.clusters p.cluster c h.clusters there

  -- The cluster that a later probe of the key reads.
  read_back :
      probe (stored table p e c) key
      ≡ some (
          probe_cluster
            (stored table p e c)
            p.cluster
            p.key16
            (store_cluster (generation8 table) p e c))
  read_back =
      let after = store_cluster (generation8 table) p e c in
      let same_place : cluster_of (stored table p e c) key ≡ p.cluster =
        cluster_of-set table p.cluster after key ∙ sym place in
      let written =
        get_elem?-set_self table.clusters p.cluster after
          (lt-of_get_elem? table.clusters p.cluster c there) in
      probe_of_cluster (stored table p e c) key after (rw same_place written)
      ∙ ap₂ (λ i k. some (probe_cluster (stored table p e c) i k after)) same_place (sym fragment)

  -- A slot that is not overwritten keeps its scores, bound and flag, and takes the new move; its
  -- depth stays or falls by one.
  module _ (kept : overwrites (generation8 table) p e c ≡ false) where
    old_depth8 : ℕ
    old_depth8 = (unpack_meta c.meta p.slot).0

  depth8 : ℕ
  depth8 = clamp_u8 (e.depth -ℤ depth_none)

  gen_bound : ℕ
  gen_bound = pack_gen_bound (generation8 table) e.bound e.is_pv

  module _ (over : overwrites (generation8 table) p e c ≡ true) where
    word_back :
        get_or (store_cluster (generation8 table) p e c).main p.slot 0
        ≡ new_word (generation8 table) p e c
    word_back = rw (store_cluster-overwrites (generation8 table) p e c over) (
        get_or-set_self c.main p.slot (new_word (generation8 table) p e c) 0
          (omega (arith, shape.three, handle.in_cluster)))

    bytes_back :
        unpack_meta (store_cluster (generation8 table) p e c).meta p.slot ≡ (depth8, gen_bound)
    unfolding depth8 gen_bound
    bytes_back = rw (store_cluster-overwrites (generation8 table) p e c over) (
        unpack-pack_self c.meta p.slot (clamp_u8 (e.depth -ℤ depth_none))
          (pack_gen_bound (generation8 table) e.bound e.is_pv) shape.meta_word handle.in_cluster
          (clamp_u8-lt (e.depth -ℤ depth_none))
          (pack_gen_bound-lt (generation8 table) e.bound e.is_pv (generation8-lt table h)))

    data_back :
        decode
          (get_or (store_cluster (generation8 table) p e c).main p.slot 0)
          (unpack_meta (store_cluster (generation8 table) p e c).meta p.slot).0
          (unpack_meta (store_cluster (generation8 table) p e c).meta p.slot).1
        ≡ kept_data table p e c
    unfolding depth8 gen_bound
    data_back =
        (λ i. decode (word_back i) (bytes_back i).0 (bytes_back i).1)
        ∙ decode-pack p.key16 (new_move (generation8 table) p e c) e.value e.eval depth8
            (generation8 table) e.bound e.is_pv handle.fragment
            (new_move-lt (generation8 table) p e c shape handle (generation8-lt table h) fits.mv16)
            fits.value_lo fits.value_hi fits.eval_lo fits.eval_hi (generation8-lt table h)

    -- An overwritten slot is found again, with what was stored.
    pub probe-store_overwrites :
        probe (stored table p e c) key
        ≡ some (record p {
          hit = not (clamp_u8 (e.depth -ℤ depth_none) == 0);
          found = kept_data table p e c;
        })
    unfolding depth8 gen_bound
    probe-store_overwrites =
        let after = store_cluster (generation8 table) p e c in
        let first =
          store_cluster-matching (generation8 table) p e c shape handle (generation8-lt table h)
            fits.mv16 in
        read_back
        ∙ ap some (
            probe_cluster_match (stored table p e c) p.cluster p.key16 after p.slot first
            ∙ (λ i. record p { hit = not ((bytes_back i).0 == 0); found = data_back i }))
