-- ===== src/Search/Tt/Invariant.antt =====
-- The shape of a table: three words to a cluster, words of 64 bits, a generation of five bits.
use rfish.Prelude.{ℕ, ◌+◌, ◌*◌, ◌%◌, ◌^◌, ◌<◌, ◌≡◌, refl, arith, Bool}
use rfish.Prelude.{length, All, All-replicate, All-map-All, length-map}
use rfish.Prelude.{◌∙◌, inl, inr, Bool-cases, List, [], ◌∷◌, map}
use rfish.Prelude.Bits.{bit_and_mask}
use native.Mathlib.Nat.{div-lt_iff_lt-mul}
use rfish.Search.Tt.{
  Cluster, TranspositionTable, empty_cluster, resize, clear, clear_cluster, new_search,
}
use rfish.Search.Tt.{cluster_of, cluster_count, cluster_count_for}

pub record IsCluster (c : Cluster) : Type 0 where
  pub three : length c.main ≡ 3
  pub words : All (λ w. w < 2 ^ 64) c.main
  pub meta_word : c.meta < 2 ^ 64

pub record IsTable (table : TranspositionTable) : Type 0 where
  pub clusters : All IsCluster table.clusters
  pub generation : table.generation < 32

pub empty_cluster-IsCluster : IsCluster empty_cluster
empty_cluster-IsCluster = record { three = refl; words = omega arith; meta_word = omega arith }

-- A table of the requested size, or none at all.
pub resize-IsTable :
    (can_reserve : ℕ → Bool) (table : TranspositionTable) (mb : ℕ)
    → IsTable table
    → IsTable (resize can_reserve table mb).1
unfolding resize
resize-IsTable can_reserve table mb h = elim (Bool-cases (can_reserve (cluster_count_for mb))) [
  | inl fits ↦ rw fits (record {
    clusters = All-replicate IsCluster (cluster_count_for mb) empty_cluster empty_cluster-IsCluster;
    generation = omega arith;
  })
  | inr short ↦ rw short (record { clusters = tt; generation = h.generation })
]

pub new_search-generation :
    (table : TranspositionTable) → (new_search table).generation ≡ (table.generation % 256 + 1) % 32
unfolding new_search
new_search-generation table = omega (arith, bit_and_mask 5 ((table.generation % 256 + 1) % 256))

pub new_search-IsTable : (table : TranspositionTable) → IsTable table → IsTable (new_search table)
unfolding new_search
new_search-IsTable table h = record {
  clusters = h.clusters;
  generation = omega (arith, bit_and_mask 5 ((table.generation % 256 + 1) % 256));
}

zero_words : (ws : List ℕ) → All (λ w. w < 2 ^ 64) (map (λ w. 0) ws)
zero_words [] = tt
zero_words (w ∷ ws) = (omega arith, zero_words ws)

clear_cluster-IsCluster : (c : Cluster) → IsCluster c → IsCluster (clear_cluster c)
unfolding clear_cluster
clear_cluster-IsCluster c h = record {
  three = length-map (λ w. 0) c.main ∙ h.three;
  words = zero_words c.main;
  meta_word = omega arith;
}

pub clear-IsTable : (table : TranspositionTable) → IsTable table → IsTable (clear table)
unfolding clear
clear-IsTable table h = record {
  clusters = All-map-All IsCluster clear_cluster clear_cluster-IsCluster table.clusters h.clusters;
  generation = omega arith;
}

-- A 64-bit key falls on a cluster of any table that has one.
pub cluster_of-lt :
    (table : TranspositionTable) (key : ℕ)
    → key < 2 ^ 64
    → 0 < cluster_count table
    → cluster_of table key < cluster_count table
unfolding cluster_of
cluster_of-lt table key hk hn =
    (div-lt_iff_lt-mul {k = 2 ^ 64} {x = key * cluster_count table} (omega arith)).1 (grind arith)
