-- ===== src/Search/Tt.antt =====
-- crates/rfish-engine/src/search/tt.rs: `TranspositionTable`, read and written by one thread. An
-- index out of range is `none`, as a panic.
use rfish.Prelude.{ℕ, zero, suc, ◌+◌, ◌-◌, ◌*◌, ◌/◌, ◌%◌, ◌^◌, min, max, Bool, true, false, not}
use rfish.Prelude.{
  ◌&&◌, ◌||◌, ◌==◌, leb, ltb, if◌then◌else◌, Option, none, some, List, [], ◌∷◌, map,
}
pub mod Invariant
pub mod Victim
pub mod Probe
pub mod Resize
use rfish.Prelude.{length, get_elem?, get_or, set, replicate, bit_and}
use rfish.Prelude.Int.{ℤ, pos, negsuc, ◌+ℤ◌, ◌-ℤ◌, ltb_ℤ, leb_ℤ, abs, from_u16, pos_part}
use rfish.Board.Move.{Move, is_none}
use rfish.Board.Value.{Value, Bound, exact, is_decisive, value_infinite, no_bound, upper, lower}
use rfish.Search.TtEntry.{TtData, cluster_size, cluster_bytes, depth_none, generation_mask, u8, u16}
use rfish.Search.TtEntry.{bit_of, relative_age, unpack_meta, pack_meta, pack_gen_bound, with_move}
use rfish.Search.TtEntry.{pack_main, bound_of, decode, empty_data}

pub record Cluster : Type 0 where
  pub main : List ℕ
  pub meta : ℕ

abbrev pub empty_cluster : Cluster
empty_cluster = record { main = 0 ∷ 0 ∷ 0 ∷ []; meta = 0 }

pub record TtProbe : Type 0 where
  pub hit : Bool
  pub found : TtData
  pub cluster : ℕ
  pub slot : ℕ
  pub key16 : ℕ

pub record TranspositionTable : Type 0 where
  pub clusters : List Cluster
  pub generation : ℕ

abbrev pub cluster_count_for : ℕ → ℕ
cluster_count_for mb = max mb 1 * 1024 * 1024 / cluster_bytes

-- `can_reserve` is the allocator's answer for a count of clusters.
unfoldable pub resize : (ℕ → Bool) → TranspositionTable → ℕ → Bool × TranspositionTable
resize can_reserve tt mb =
    let count = cluster_count_for mb in
    if can_reserve count
    then (true, record { clusters = replicate count empty_cluster; generation = 0 })
    else (false, record tt { clusters = [] })

unfoldable pub clear_cluster : Cluster → Cluster
clear_cluster c = record { main = map (λ w. 0) c.main; meta = 0 }

unfoldable pub clear : TranspositionTable → TranspositionTable
unfolding clear_cluster
clear tt = record { clusters = map clear_cluster tt.clusters; generation = 0 }

unfoldable pub cluster_count : TranspositionTable → ℕ
cluster_count tt = length tt.clusters

unfoldable pub new_search : TranspositionTable → TranspositionTable
new_search tt = record tt { generation = bit_and (u8 (u8 tt.generation + 1)) generation_mask }

unfoldable pub generation8 : TranspositionTable → ℕ
generation8 tt = u8 tt.generation

-- The high word of the 128-bit product.
unfoldable pub cluster_of : TranspositionTable → ℕ → ℕ
unfolding cluster_count
cluster_of tt key = key * cluster_count tt / 2 ^ 64

-- The first slot whose key fragment is the sought one.
unfoldable pub matching_slot : List ℕ → ℕ → ℕ → Option ℕ
matching_slot [] slot key16 = none
matching_slot (w ∷ ws) slot key16 =
    if u16 w == key16 then some slot else matching_slot ws (slot + 1) key16

-- The depth of a slot, discounted eight-fold by its age.
unfoldable pub worth : ℕ → ℕ → ℕ → ℤ
unfolding ◌-ℤ◌
worth cur_gen meta slot =
    let (depth8, gen_bound) = unpack_meta meta slot in
    pos depth8 -ℤ pos (8 * relative_age gen_bound cur_gen)

-- The replacement loop over the remaining slots.
unfoldable pub least : ℕ → ℕ → List ℕ → ℤ → ℕ → ℕ
least cur_gen meta [] worst victim = victim
least cur_gen meta (slot ∷ slots) worst victim =
    let score = worth cur_gen meta slot in
    let better = ltb_ℤ score worst in
    least cur_gen meta slots (if better then score else worst) (if better then slot else victim)

unfoldable pub victim_of : ℕ → ℕ → ℕ
unfolding least
victim_of cur_gen meta = least cur_gen meta (1 ∷ 2 ∷ []) (worth cur_gen meta 0) 0

unfoldable pub probe_cluster : TranspositionTable → ℕ → ℕ → Cluster → TtProbe
probe_cluster tt cluster key16 c = elim (matching_slot c.main 0 key16) [
  | some slot ↦
      let (depth8, gen_bound) = unpack_meta c.meta slot in
      record {
        hit = not (depth8 == 0);
        found = decode (get_or c.main slot 0) depth8 gen_bound;
        cluster = cluster;
        slot = slot;
        key16 = key16;
      }
  | none ↦ record {
    hit = false;
    found = empty_data;
    cluster = cluster;
    slot = victim_of (generation8 tt) c.meta;
    key16 = key16;
  }
]

unfoldable pub probe : TranspositionTable → ℕ → Option TtProbe
unfolding probe_cluster
probe tt key =
    let cluster = cluster_of tt key in
    elim (get_elem? tt.clusters cluster) [
      | none ↦ none
      | some c ↦ some (probe_cluster tt cluster (u16 key) c)
    ]
