-- ===== src/Search/Tt/Resize.antt =====
-- What a resize leaves, with the allocator's answer for each outcome.
use rfish.Prelude.{ℕ, ◌*◌, ◌^◌, ◌≡◌, ◌∙◌, ap, max}
use rfish.Prelude.{Bool, true, false, not, ◌==◌, Option-cases, inl, inr}
use rfish.Prelude.{none, some, replicate}
use native.Mathlib.Nat.{zero-div}
use rfish.Search.TtEntry.{unpack_meta}
use rfish.Search.Tt.{
  Cluster, TtProbe, TranspositionTable, empty_cluster, matching_slot, probe, probe_cluster,
  cluster_count,
}
use rfish.Search.Tt.Invariant.{IsTable}
use rfish.Search.Tt.Probe.{probe_cluster_miss, probe_cluster_match}

unpack-zero : (slot : ℕ) → (unpack_meta 0 slot).0 ≡ 0
unfolding unpack_meta
unpack-zero slot = rw (zero-div (2 ^ (slot * 16)))

-- A slot of a zero metadata word is no hit.
pub empty_meta_misses :
    (table : TranspositionTable) (cluster key16 : ℕ) (c : Cluster)
    → c.meta ≡ 0
    → (probe_cluster table cluster key16 c).hit ≡ false
empty_meta_misses table cluster key16 c h = elim (Option-cases (matching_slot c.main 0 key16)) [
  | inl miss ↦ rw (probe_cluster_miss table cluster key16 c miss)
  | inr (slot, match) ↦
      let unoccupied : (unpack_meta c.meta slot).0 ≡ 0 =
        ap (λ m. (unpack_meta m slot).0) h ∙ unpack-zero slot in
      ap (λ (q : TtProbe). q.hit) (probe_cluster_match table cluster key16 c slot match)
      ∙ ap (λ (d : ℕ). not (d == 0)) unoccupied
]

-- The two ways a resize to `mb` mebibytes can end, by whether memory is available. With it there are
-- 32768 clusters for each, and at least one mebibyte; the key is looked up and not found. Without it
-- nothing is left of the table, and the lookup panics.
pub data Resized (mb key : ℕ) : Bool → Bool × TranspositionTable → Type 0 where
  grown :
      (t : TranspositionTable) (p : TtProbe)
      → IsTable t
      → t.generation ≡ 0
      → cluster_count t ≡ max mb 1 * 32768
      → probe t key ≡ some p
      → p.hit ≡ false
      → Resized mb key true (true, t)
  refused :
      (t : TranspositionTable)
      → IsTable t
      → cluster_count t ≡ 0
      → probe t key ≡ none
      → Resized mb key false (false, t)

abbrev fresh : ℕ → TranspositionTable
fresh count = record { clusters = replicate count empty_cluster; generation = 0 }
