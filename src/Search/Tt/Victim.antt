-- ===== src/Search/Tt/Victim.antt =====
-- The slot that a miss will overwrite, and the slot that a hit is found in.
use rfish.Prelude.{ℕ, zero, suc, ◌+◌, ◌≤◌, ◌<◌, ◌≡◌, arith, ◌==◌}
use rfish.Prelude.{none, some, List, [], ◌∷◌, length, set, get_or, ◌⊎◌, inl, inr, Bool-cases}
use rfish.Prelude.Int.{◌≤ℤ◌, ◌<ℤ◌}
use rfish.Search.TtEntry.{u16}
use rfish.Search.Tt.{worth, victim_of, matching_slot}

-- The victim is a slot of the cluster: no other is worth less, and no earlier one is worth as little.
pub victim_of_least :
    (cur_gen meta slot : ℕ)
    → slot < 3
    → (victim_of cur_gen meta < 3)
      × (worth cur_gen meta (victim_of cur_gen meta) ≤ℤ worth cur_gen meta slot)
      × ((victim_of cur_gen meta ≤ slot)
          ⊎ (worth cur_gen meta (victim_of cur_gen meta) <ℤ worth cur_gen meta slot))
unfolding victim_of
victim_of_least cur_gen meta zero h = ground arith
victim_of_least cur_gen meta (suc zero) h = ground arith
victim_of_least cur_gen meta (suc (suc zero)) h = ground arith
victim_of_least cur_gen meta (suc (suc (suc s))) h = absurd (omega arith)

-- A match is a slot that holds the key fragment.
pub matching_slot-some :
    (ws : List ℕ) (base key16 slot : ℕ)
    → matching_slot ws base key16 ≡ some slot
    → (i : ℕ) × (slot ≡ base + i) × (i < length ws) × (u16 (get_or ws i 0) ≡ key16)
unfolding matching_slot
matching_slot-some [] base key16 slot h = cc
matching_slot-some (w ∷ ws) base key16 slot h = elim (Bool-cases (u16 w == key16)) [
  | inl same ↦ (0, ground arith, omega arith, ground arith)
  | inr differs ↦
      let (i, at, below, holds) = matching_slot-some ws (base + 1) key16 slot (ground arith) in
      (suc i, omega arith, omega arith, holds)
]

-- After the fragment is written to the first match, or to any slot when there was none, that slot is
-- the first match.
pub matching_slot-set :
    (ws : List ℕ) (base key16 i w : ℕ)
    → i < length ws
    → u16 w ≡ key16
    → (matching_slot ws base key16 ≡ none) ⊎ (matching_slot ws base key16 ≡ some (base + i))
    → matching_slot (set ws i w) base key16 ≡ some (base + i)
unfolding matching_slot
matching_slot-set [] base key16 i w hi hw h = absurd (omega arith)
matching_slot-set (x ∷ ws) base key16 zero w hi hw h = ground arith
matching_slot-set (x ∷ ws) base key16 (suc i) w hi hw h =
    ground (arith, matching_slot-set ws (base + 1) key16 i w)
