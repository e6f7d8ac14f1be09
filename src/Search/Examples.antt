-- ===== src/Search/Examples.antt =====
-- The theorems of the search's tables at concrete tables, keys and entries.
use rfish.Prelude.{ℕ, ◌+◌, ◌-◌, ◌*◌, ◌≤◌, ◌<◌, ◌≡◌, refl, arith, true, false}
use rfish.Prelude.{some, [], ◌∷◌, get_elem?, inl, inr, ◌⊎◌}
use rfish.Prelude.Int.{pos, negsuc, from_u16, ◌+ℤ◌, ◌≤ℤ◌, ◌<ℤ◌}
use rfish.Board.Value.{bound_from_raw, exact, upper, lower}
use rfish.Search.TtEntry.{
  u16, empty_data, unpack_meta, pack_main, pack_gen_bound, decode, relative_age, depth_none,
}
use rfish.Search.TtEntry.Main.{decode-pack}
use rfish.Search.Tt.{
  Cluster, TtProbe, TranspositionTable, empty_cluster, cluster_of, probe, generation8, worth,
  victim_of, matching_slot, cluster_count, clear,
}
use rfish.Search.Tt.Invariant.{IsTable, empty_cluster-IsCluster}
use rfish.Search.Tt.Victim.{victim_of_least}
use rfish.Search.Tt.Probe.{Handles, probe_total}
use rfish.Search.TtStore.{replaces, kept_move, Entry, store, penalize_cluster}
use rfish.Search.TtStore.RoundTrip.{Fits, stored, store-IsTable}
use rfish.Search.TtStore.Contract.{as_data, store_then_probe, store_on_miss, store_exact}
use rfish.Search.TtStore.Upkeep.{penalize_slots}

abbrev deep_meta : ℕ
deep_meta = 17172

-- A lower bound of a won score for key 7, at depth byte 20 of generation 3.
abbrev deep_word : ℕ
deep_word = 12 * 281474976710656 + 31600 * 4294967296 + 130 * 65536 + 7

abbrev deep_cluster : Cluster
deep_cluster = record { main = deep_word ∷ 0 ∷ 0 ∷ []; meta = deep_meta }

abbrev example_table : TranspositionTable
example_table = record { clusters = deep_cluster ∷ empty_cluster ∷ []; generation = 3 }

example_IsTable : IsTable example_table
example_IsTable = record {
  clusters = (
    record { three = refl; words = omega arith; meta_word = omega arith },
    (empty_cluster-IsCluster, tt),
  );
  generation = omega arith;
}

abbrev hit7 : TtProbe
hit7 = record {
  hit = true;
  found = record {
    mv = 130;
    value = pos 31600;
    eval = pos 12;
    depth = pos 17;
    bound = lower;
    is_pv = false;
  };
  cluster = 0;
  slot = 0;
  key16 = 7;
}

abbrev miss9 : TtProbe
miss9 = record { hit = false; found = empty_data; cluster = 0; slot = 1; key16 = 9 }

probes : (probe example_table 7 ≡ some hit7) × (probe example_table 9 ≡ some miss9)
unfolding probe cluster_of matching_slot unpack_meta decode from_u16 bound_from_raw victim_of worth
    relative_age generation8
probes = (refl, refl)

handle7 : Handles hit7 deep_cluster
unfolding matching_slot
handle7 = record { in_cluster = omega arith; fragment = omega arith; first = inr refl }

handle9 : Handles miss9 deep_cluster
unfolding matching_slot
handle9 = record { in_cluster = omega arith; fragment = omega arith; first = inl refl }

-- A shallow upper bound without a move, which leaves the entry of key 7, and an exact one.
abbrev shallow : Entry
shallow = record {
  mv = 0;
  value = pos 3;
  eval = negsuc 4;
  depth = pos 5;
  bound = upper;
  is_pv = false;
}

abbrev certain : Entry
certain = record {
  mv = 796;
  value = negsuc 31;
  eval = pos 8;
  depth = negsuc 0;
  bound = exact;
  is_pv = true;
}

shallow-Fits : Fits shallow
shallow-Fits = record {
  mv16 = omega arith;
  value_lo = omega arith;
  value_hi = omega arith;
  eval_lo = omega arith;
  eval_hi = omega arith;
}

certain-Fits : Fits certain
certain-Fits = record {
  mv16 = omega arith;
  value_lo = omega arith;
  value_hi = omega arith;
  eval_lo = omega arith;
  eval_hi = omega arith;
}

store_then_probe_example :
    (store example_table hit7 certain ≡ some (stored example_table hit7 certain deep_cluster))
    × IsTable (stored example_table hit7 certain deep_cluster)
    × (probe (stored example_table hit7 certain deep_cluster) 7
        ≡ some (record hit7 { hit = true; found = as_data certain 796 }))
unfolding replaces kept_move
store_then_probe_example =
    store_then_probe example_table 7 hit7 certain deep_cluster example_IsTable probes.0 refl
      certain-Fits (omega arith, omega arith) refl

store_on_miss_example :
    probe (stored example_table miss9 shallow deep_cluster) 9
    ≡ some (record miss9 { hit = true; found = as_data shallow 0 })
unfolding matching_slot
store_on_miss_example =
    store_on_miss example_table 9 miss9 shallow deep_cluster example_IsTable probes.1 refl
      shallow-Fits (omega arith, omega arith) refl

store_exact_example :
    probe (stored example_table hit7 certain deep_cluster) 7
    ≡ some (record hit7 { hit = true; found = as_data certain 796 })
store_exact_example =
    store_exact example_table 7 hit7 certain deep_cluster example_IsTable probes.0 refl certain-Fits
      (omega arith, omega arith) refl (omega arith)

store-IsTable_example :
    (store example_table miss9 certain ≡ some (stored example_table miss9 certain deep_cluster))
    × IsTable (stored example_table miss9 certain deep_cluster)
store-IsTable_example =
    store-IsTable example_table miss9 certain deep_cluster example_IsTable refl handle9
      (omega arith)

probe_total_example :
    (p : TtProbe) × (c : Cluster) × (probe example_table 123 ≡ some p)
    × (get_elem? example_table.clusters p.cluster ≡ some c)
    × (p.key16 ≡ u16 123)
    × Handles p c
unfolding cluster_count
probe_total_example = probe_total example_table 123 example_IsTable (omega arith) (omega arith)

victim_of_least_example :
    (victim_of 3 deep_meta < 3)
    × (worth 3 deep_meta (victim_of 3 deep_meta) ≤ℤ worth 3 deep_meta 2)
    × ((victim_of 3 deep_meta ≤ 2)
        ⊎ (worth 3 deep_meta (victim_of 3 deep_meta) <ℤ worth 3 deep_meta 2))
victim_of_least_example = victim_of_least 3 deep_meta 2 (omega arith)

decode-pack_example :
    decode (pack_main 7 130 (negsuc 99) (pos 12)) 20 (pack_gen_bound 3 lower true) ≡ record {
      mv = 130;
      value = negsuc 99;
      eval = pos 12;
      depth = depth_none +ℤ pos 20;
      bound = lower;
      is_pv = true;
    }
decode-pack_example =
    decode-pack 7 130 (negsuc 99) (pos 12) 20 3 lower true (omega arith) (omega arith) (omega arith)
      (omega arith) (omega arith) (omega arith) (omega arith)

penalize_slots_example :
    let after = penalize_cluster hit7 (pos 9) deep_cluster in
    (after.main ≡ deep_cluster.main)
    × (unpack_meta after.meta 0
        ≡ ((unpack_meta deep_cluster.meta 0).0 - 9, (unpack_meta deep_cluster.meta 0).1))
    × (unpack_meta after.meta 1 ≡ unpack_meta deep_cluster.meta 1)
penalize_slots_example =
    penalize_slots hit7 9 deep_cluster 1 example_IsTable.clusters.0 handle7 (omega arith)
      (omega arith)

abbrev miss7 : TtProbe
miss7 = record miss9 { slot = 0; key16 = 7 }

cleared_probe : probe (clear example_table) 7 ≡ some miss7
unfolding probe cluster_of matching_slot unpack_meta victim_of worth relative_age generation8 clear
cleared_probe = refl
