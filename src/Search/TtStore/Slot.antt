-- ===== src/Search/TtStore/Slot.antt =====
-- What a store does to the cluster of the probe: its slot, the other slots, the shape.
use rfish.Prelude.{ℕ, ◌+◌, ◌-◌, ◌/◌, ◌^◌, ◌<◌, ◌≡◌, ◌≢◌, refl, arith, ap, ◌∙◌}
use rfish.Prelude.{Bool, true, false, ◌==◌, Bool-cases, ◌⊎◌, inl, inr, some}
use rfish.Prelude.{length, set, get_or, All-set, All-get_or, length-set, get_or-set_ne, set-set}
use rfish.Prelude.Bits.{bit_and_mask}
use rfish.Prelude.Int.{ℤ, ◌-ℤ◌, to_u16-lt}
use rfish.Board.Move.{Move}
use rfish.Board.Value.{Bound}
use rfish.Search.TtEntry.{
  depth_none, u16, unpack_meta, pack_meta, pack_gen_bound, with_move, pack_main,
}
use rfish.Search.TtEntry.Main.{
  pack_main_lem, with_move_lem, pack_gen_bound_lem, bound_index-lt, bit_of-lt,
}
use rfish.Search.TtEntry.Meta.{unpack_meta-lt, pack_meta-lt, unpack-pack_ne}
use rfish.Search.Tt.{Cluster, TtProbe, matching_slot}
use rfish.Search.Tt.Invariant.{IsCluster}
use rfish.Search.Tt.Victim.{matching_slot-set}
use rfish.Search.Tt.Probe.{Handles}
use rfish.Search.TtStore.{Entry, clamp_u8, kept_move, replaces, ages, store_cluster}

pub clamp_u8-lt : (d : ℤ) → clamp_u8 d < 256
clamp_u8-lt d = ground arith

pub kept_move-lt :
    (main : ℕ) (same_key : Bool) (mv : Move) → mv < 65536 → kept_move main same_key mv < 65536
unfolding kept_move
kept_move-lt main same_key mv h = ground (arith, bit_and_mask 16 (main / 2 ^ 16))

pub pack_gen_bound-lt :
    (cur_gen : ℕ) (bound : Bound) (is_pv : Bool)
    → cur_gen < 32
    → pack_gen_bound cur_gen bound is_pv < 256
pack_gen_bound-lt cur_gen bound is_pv h =
    omega (arith, pack_gen_bound_lem cur_gen bound is_pv h, bound_index-lt bound, bit_of-lt is_pv)

-- The parts of a store, as it reads them.
module _ (cur_gen : ℕ) (p : TtProbe) (e : Entry) (c : Cluster) where
  abbrev pub old_main : ℕ
  old_main = get_or c.main p.slot 0

  abbrev pub old_meta : ℕ × ℕ
  old_meta = unpack_meta c.meta p.slot

  abbrev pub new_move : ℕ
  new_move = kept_move old_main (u16 old_main == p.key16) e.mv

  abbrev pub overwrites : Bool
  overwrites = replaces e (u16 old_main == p.key16) old_meta.0 old_meta.1 cur_gen

  abbrev pub new_word : ℕ
  new_word = pack_main p.key16 new_move e.value e.eval

  abbrev pub moved_word : ℕ
  moved_word = with_move old_main new_move

  abbrev pub new_meta : ℕ
  new_meta =
      pack_meta c.meta p.slot (clamp_u8 (e.depth -ℤ depth_none))
        (pack_gen_bound cur_gen e.bound e.is_pv)

  pub store_cluster-overwrites :
      overwrites ≡ true
      → store_cluster cur_gen p e c ≡ record { main = set c.main p.slot new_word; meta = new_meta }
  unfolding store_cluster
  store_cluster-overwrites h = rw (h, set-set c.main p.slot moved_word new_word)

  -- An entry that stays takes the move, and may lose a ply.
  pub store_cluster-keeps :
      overwrites ≡ false
      → let after = store_cluster cur_gen p e c in
        (after.main ≡ set c.main p.slot moved_word)
        × ((after.meta ≡ c.meta)
            ⊎ (after.meta ≡ pack_meta c.meta p.slot (old_meta.0 - 1) old_meta.1))
  unfolding store_cluster
  store_cluster-keeps h = elim (Bool-cases (ages moved_word old_meta.0 old_meta.1)) [
    | inl older ↦ rw (h, older) (refl, inr refl)
    | inr same ↦ rw (h, same) (refl, inl refl)
  ]

module _ (cur_gen : ℕ) (p : TtProbe) (e : Entry) (c : Cluster) (shape : IsCluster c)
    (handle : Handles p c) (gen : cur_gen < 32) (mv16 : e.mv < 65536) where
  old_main-lt : old_main cur_gen p e c < 2 ^ 64
  old_main-lt = All-get_or (λ w. w < 2 ^ 64) c.main p.slot 0 shape.words (omega arith)

  pub new_move-lt : new_move cur_gen p e c < 65536
  new_move-lt =
      kept_move-lt (old_main cur_gen p e c) (u16 (old_main cur_gen p e c) == p.key16) e.mv mv16

  new_word_lem : (u16 (new_word cur_gen p e c) ≡ p.key16) × (new_word cur_gen p e c < 2 ^ 64)
  new_word_lem =
      let fits = new_move-lt in
      let small = handle.fragment in
      omega (
        arith,
        pack_main_lem p.key16 (new_move cur_gen p e c) e.value e.eval small fits,
        to_u16-lt e.value,
        to_u16-lt e.eval,
      )

  moved_word_lem :
      (u16 (moved_word cur_gen p e c) ≡ u16 (old_main cur_gen p e c))
      × (moved_word cur_gen p e c < 2 ^ 64)
  moved_word_lem =
      let fits = new_move-lt in
      let wide = old_main-lt in
      omega (arith, with_move_lem (old_main cur_gen p e c) (new_move cur_gen p e c) wide fits)

  -- The moved word has the new move and the old scores.
  pub moved_word_fields :
      (u16 (moved_word cur_gen p e c / 2 ^ 16) ≡ new_move cur_gen p e c)
      × (moved_word cur_gen p e c / 2 ^ 32 ≡ old_main cur_gen p e c / 2 ^ 32)
      × (moved_word cur_gen p e c / 2 ^ 48 ≡ old_main cur_gen p e c / 2 ^ 48)
  moved_word_fields =
      let fits = new_move-lt in
      let wide = old_main-lt in
      omega (arith, with_move_lem (old_main cur_gen p e c) (new_move cur_gen p e c) wide fits)

  -- An entry that stays has the probe's key.
  keeps_same_key : overwrites cur_gen p e c ≡ false → u16 (old_main cur_gen p e c) ≡ p.key16
  unfolding replaces
  keeps_same_key h = ground arith

  pub store_cluster-matching :
      matching_slot (store_cluster cur_gen p e c).main 0 p.key16 ≡ some p.slot
  store_cluster-matching = elim (Bool-cases (overwrites cur_gen p e c)) [
    | inl over ↦
        rw (store_cluster-overwrites cur_gen p e c over)
          (at_slot (new_word cur_gen p e c) new_word_lem.0)
    | inr kept ↦
        rw ((store_cluster-keeps cur_gen p e c kept).0)
          (at_slot (moved_word cur_gen p e c) (moved_word_lem.0 ∙ keeps_same_key kept))
  ]
    where
      at_slot :
          (w : ℕ) → u16 w ≡ p.key16 → matching_slot (set c.main p.slot w) 0 p.key16 ≡ some p.slot
      at_slot w hw =
          let same : 0 + p.slot ≡ p.slot = omega arith in
          let room : p.slot < length c.main = omega (arith, shape.three, handle.in_cluster) in
          rw same at (matching_slot-set c.main 0 p.key16 p.slot w room hw (rw same handle.first))

  set_word-IsCluster :
      (w meta : ℕ)
      → w < 2 ^ 64
      → meta < 2 ^ 64
      → IsCluster (record { main = set c.main p.slot w; meta = meta })
  set_word-IsCluster w meta hw hm = record {
    three = length-set c.main p.slot w ∙ shape.three;
    words = All-set (λ v. v < 2 ^ 64) c.main p.slot w shape.words hw;
    meta_word = hm;
  }

  new_meta-lt : new_meta cur_gen p e c < 2 ^ 64
  new_meta-lt =
      pack_meta-lt c.meta p.slot (clamp_u8 (e.depth -ℤ depth_none))
        (pack_gen_bound cur_gen e.bound e.is_pv) shape.meta_word handle.in_cluster
        (clamp_u8-lt (e.depth -ℤ depth_none)) (pack_gen_bound-lt cur_gen e.bound e.is_pv gen)

  aged_meta-lt :
      pack_meta c.meta p.slot ((old_meta cur_gen p e c).0 - 1) (old_meta cur_gen p e c).1 < 2 ^ 64
  aged_meta-lt =
      let bytes = unpack_meta-lt c.meta p.slot in
      pack_meta-lt c.meta p.slot ((old_meta cur_gen p e c).0 - 1) (old_meta cur_gen p e c).1
        shape.meta_word handle.in_cluster (omega arith) (omega arith)

  kept_meta-lt : overwrites cur_gen p e c ≡ false → (store_cluster cur_gen p e c).meta < 2 ^ 64
  kept_meta-lt kept = elim ((store_cluster-keeps cur_gen p e c kept).1) [
    | inl same ↦ rw same shape.meta_word
    | inr aged ↦ rw aged aged_meta-lt
  ]

  -- A store keeps the shape of the cluster.
  pub store_cluster-IsCluster : IsCluster (store_cluster cur_gen p e c)
  store_cluster-IsCluster = elim (Bool-cases (overwrites cur_gen p e c)) [
    | inl over ↦ rw (store_cluster-overwrites cur_gen p e c over) (
        set_word-IsCluster (new_word cur_gen p e c) (new_meta cur_gen p e c) new_word_lem.1
          new_meta-lt)
    | inr kept ↦
        let words = (store_cluster-keeps cur_gen p e c kept).0 in
        let word = set_word-IsCluster (moved_word cur_gen p e c) 0 moved_word_lem.1 (omega arith) in
        record {
          three = ap length words ∙ word.three;
          words = rw words word.words;
          meta_word = kept_meta-lt kept;
        }
  ]

  -- The other slots of the cluster hold what they held.
  pub store_cluster_other_slots :
      (other : ℕ)
      → other < 3
      → p.slot ≢ other
      → (get_or (store_cluster cur_gen p e c).main other 0 ≡ get_or c.main other 0)
        × (unpack_meta (store_cluster cur_gen p e c).meta other ≡ unpack_meta c.meta other)
  store_cluster_other_slots other ho ne = elim (Bool-cases (overwrites cur_gen p e c)) [
    | inl over ↦ rw (store_cluster-overwrites cur_gen p e c over) (
      get_or-set_ne c.main p.slot other (new_word cur_gen p e c) 0 ne,
      unpack-pack_ne c.meta p.slot other (clamp_u8 (e.depth -ℤ depth_none))
          (pack_gen_bound cur_gen e.bound e.is_pv) shape.meta_word handle.in_cluster ho ne
          (clamp_u8-lt (e.depth -ℤ depth_none)) (pack_gen_bound-lt cur_gen e.bound e.is_pv gen),
    )
    | inr kept ↦ (
      rw ((store_cluster-keeps cur_gen p e c kept).0)
          (get_or-set_ne c.main p.slot other (moved_word cur_gen p e c) 0 ne),
      kept_slots kept,
    )
  ]
    where
      aged_slots :
          unpack_meta
            (pack_meta c.meta p.slot ((old_meta cur_gen p e c).0 - 1) (old_meta cur_gen p e c).1)
            other
          ≡ unpack_meta c.meta other
      aged_slots =
          let bytes = unpack_meta-lt c.meta p.slot in
          unpack-pack_ne c.meta p.slot other ((old_meta cur_gen p e c).0 - 1)
            (old_meta cur_gen p e c).1 shape.meta_word handle.in_cluster ho ne (omega arith)
            (omega arith)

      kept_slots :
          overwrites cur_gen p e c ≡ false
          → unpack_meta (store_cluster cur_gen p e c).meta other ≡ unpack_meta c.meta other
      kept_slots kept = elim ((store_cluster-keeps cur_gen p e c kept).1) [
        | inl same ↦ rw same
        | inr aged ↦ rw aged aged_slots
      ]
