-- ===== src/Search/TtStore/Contract.antt =====
-- What the search relies on: a probe's handle takes a store, and the next probe of the key finds it.
use rfish.Prelude.{ℕ, zero, suc, ◌+◌, ◌<◌, ◌≡◌, ◌≢◌, refl, arith, ap, ◌∙◌}
use rfish.Prelude.{
  Bool, true, false, ◌==◌, not, ◌||◌, none, some, List, [], ◌∷◌, length, get_or, get_elem?,
  All-get_elem?,
}
use rfish.Prelude.Int.{ℤ, pos, negsuc, ◌-ℤ◌, ◌+ℤ◌, ◌≤ℤ◌}
use rfish.Board.Value.{exact}
use rfish.Search.TtEntry.{TtData, depth_none, u16, unpack_meta}
use rfish.Search.Tt.{Cluster, TtProbe, TranspositionTable, matching_slot, probe, generation8}
use rfish.Search.Tt.Invariant.{IsCluster, IsTable}
use rfish.Search.Tt.Probe.{probe-some}
use rfish.Search.TtStore.{is_exact, Entry, clamp_u8, kept_move, replaces, store}
use rfish.Search.TtStore.Slot.{overwrites, new_move}
use rfish.Search.TtStore.RoundTrip.{Fits, stored, kept_data, store-IsTable, probe-store_overwrites}

-- The depths that a byte over the bias holds, above the empty slot's.
abbrev pub IsStorable : ℤ → Type 0
IsStorable d = (negsuc 1 ≤ℤ d) × (d ≤ℤ pos 252)

clamp_storable :
    (d : ℤ)
    → IsStorable d
    → (not (clamp_u8 (d -ℤ depth_none) == 0) ≡ true)
      × (depth_none +ℤ pos (clamp_u8 (d -ℤ depth_none)) ≡ d)
unfolding ◌-ℤ◌ ◌+ℤ◌
clamp_storable (pos n) h = ground arith
clamp_storable (negsuc n) h = ground arith

-- A fragment that matches nowhere is in no slot.
no_match :
    (ws : List ℕ) (base key16 i : ℕ)
    → matching_slot ws base key16 ≡ none
    → i < length ws
    → (u16 (get_or ws i 0) == key16) ≡ false
unfolding matching_slot
no_match [] base key16 i h hi = absurd (omega arith)
no_match (w ∷ ws) base key16 zero h hi = ground arith
no_match (w ∷ ws) base key16 (suc i) h hi =
    no_match ws (base + 1) key16 i (ground arith) (omega arith)

or_true : (b : Bool) → b || true ≡ true
or_true true = refl
or_true false = refl

-- A slot that holds another key is taken, and so is any slot by an exact bound.
replaces_other : (e : Entry) (d g cur_gen : ℕ) → replaces e false d g cur_gen ≡ true
unfolding replaces
replaces_other e d g cur_gen = rw (or_true (is_exact e.bound))

replaces_exact :
    (e : Entry) (same_key : Bool) (d g cur_gen : ℕ)
    → e.bound ≡ exact
    → replaces e same_key d g cur_gen ≡ true
unfolding replaces
replaces_exact e same_key d g cur_gen h =
    let exact_here : is_exact e.bound ≡ true = ap is_exact h in rw exact_here

kept_move_other : (main mv : ℕ) → kept_move main false mv ≡ mv
unfolding kept_move
kept_move_other main mv = rw (or_true (not (mv == 0)))

kept_move_some : (main : ℕ) (same_key : Bool) (mv : ℕ) → mv ≢ 0 → kept_move main same_key mv ≡ mv
unfolding kept_move
kept_move_some main same_key mv ne = ground arith

-- The entry as a reader finds it.
abbrev pub as_data : Entry → ℕ → TtData
as_data e mv = record {
  mv = mv;
  value = e.value;
  eval = e.eval;
  depth = e.depth;
  bound = e.bound;
  is_pv = e.is_pv;
}

module _ (table : TranspositionTable) (key : ℕ) (p : TtProbe) (e : Entry) (c : Cluster)
    (h : IsTable table) (probed : probe table key ≡ some p)
    (there : get_elem? table.clusters p.cluster ≡ some c) (fits : Fits e)
    (depth : IsStorable e.depth) where
  -- On a well-formed table, with a probe's handle, a move and scores of sixteen bits and a storable
  -- depth: when the replacement test takes the slot, the store succeeds, keeps the table well formed, and
  -- the next probe of the key hits the same slot with the stored scores, depth, bound and flag.
  pub store_then_probe :
      overwrites (generation8 table) p e c ≡ true
      → (store table p e ≡ some (stored table p e c))
        × IsTable (stored table p e c)
        × (probe (stored table p e c) key
            ≡ some
                (record p { hit = true; found = as_data e (new_move (generation8 table) p e c) }))
  store_then_probe over =
      let (place, fragment, handle, whole) = probe-some table key p c h probed there in
      let (written, shape) = store-IsTable table p e c h there handle fits.mv16 in
      let (hits, same_depth) = clamp_storable e.depth depth in
      (
        written,
        shape,
        probe-store_overwrites table key p e c h place fragment there handle fits over ∙ (λ i.
            some (record p {
              hit = hits i;
              found = record (kept_data table p e c) { depth = same_depth i };
            })),
      )

  -- Under the same conditions, a key that no slot of its cluster held is found after the store with all that was stored, the
  -- move included.
  pub store_on_miss :
      matching_slot c.main 0 p.key16 ≡ none
      → probe (stored table p e c) key ≡ some (record p { hit = true; found = as_data e e.mv })
  store_on_miss none_there =
      let (place, fragment, handle, whole) = probe-some table key p c h probed there in
      let shape = All-get_elem? IsCluster table.clusters p.cluster c h.clusters there in
      let main = get_or c.main p.slot 0 in
      let (d, g) = unpack_meta c.meta p.slot in
      let other : (u16 main == p.key16) ≡ false =
        no_match c.main 0 p.key16 p.slot none_there
          (omega (arith, shape.three, handle.in_cluster)) in
      let taken : overwrites (generation8 table) p e c ≡ true =
        ap (λ b. replaces e b d g (generation8 table)) other
        ∙ replaces_other e d g (generation8 table) in
      let same_move : new_move (generation8 table) p e c ≡ e.mv =
        ap (λ b. kept_move main b e.mv) other ∙ kept_move_other main e.mv in
      (store_then_probe taken).2
      ∙ ap (λ m. some (record p { hit = true; found = as_data e m })) same_move

  -- Under the same conditions, an exact bound always takes the slot, and with a move every field of it is read back.
  pub store_exact :
      e.bound ≡ exact
      → e.mv ≢ 0
      → probe (stored table p e c) key ≡ some (record p { hit = true; found = as_data e e.mv })
  store_exact is_exact_bound moves =
      let main = get_or c.main p.slot 0 in
      let (d, g) = unpack_meta c.meta p.slot in
      (store_then_probe
        (replaces_exact e (u16 main == p.key16) d g (generation8 table) is_exact_bound)).2
      ∙ ap (λ m. some (record p { hit = true; found = as_data e m }))
          (kept_move_some main (u16 main == p.key16) e.mv moves)
