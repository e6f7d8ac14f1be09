-- ===== src/Board/Cuckoo/Insertion.antt =====
-- An insertion that ends loses no entry, and puts its own where the lookup reads.
use rfish.Prelude.{ℕ, zero, suc, ◌≡◌, ◌⊎◌, ◌∙◌, refl, arith, ap, sym, subst, true, false, inl, inr}
use rfish.Prelude.{◌==◌, ==_iff, Bool-cases, some}
use rfish.Board.Move.{Move, is_none}
use rfish.Board.Zobrist.{Key}
use rfish.Board.Cuckoo.{h1, h2, CuckooTables, other_slot, seated, insert, lookup}

-- One of a key's two slots.
abbrev IsSlot : Key → ℕ → Type 0
IsSlot key i = (i ≡ h1 key) ⊎ (i ≡ h2 key)

-- The tables have the move for the key, where a lookup of the key reads.
abbrev pub Held : CuckooTables → Key → Move → Type 0
Held t key mv = (i : ℕ) × IsSlot key i × (t.keys i ≡ key) × (t.moves i ≡ mv)

other_slot-IsSlot : (key : Key) (i : ℕ) → IsSlot key (other_slot key i)
unfolding other_slot
other_slot-IsSlot key i = elim (Bool-cases (i == h1 key)) [
  | inl first ↦ rw first (inr refl)
  | inr second ↦ rw second (inl refl)
]

module _ (key : Key) (mv : Move) (real : is_none mv ≡ false) where
  -- The entry is in the tables, or in hand.
  abbrev Kept : CuckooTables → Key → Move → Type 0
  Kept t k m = Held t key mv ⊎ ((k ≡ key) × (m ≡ mv))

  exchanged :
      (t : CuckooTables) (k : Key) (m : Move) (i : ℕ)
      → IsSlot k i
      → Kept t k m
      → Kept (seated t i k m) (t.keys i) (t.moves i)
  exchanged t k m i slot (inr (same_key, same_move)) = inl (
    i,
    subst (λ x. IsSlot x i) same_key slot,
    ground (arith, same_key),
    ground (arith, same_move),
  )
  exchanged t k m i slot (inl (j, its, key_there, move_there)) = elim (Bool-cases (i == j)) [
    | inl here ↦
        let at = (==_iff i j).0 here in inr (ap t.keys at ∙ key_there, ap t.moves at ∙ move_there)
    | inr elsewhere ↦ inl (j, its, rw elsewhere key_there, rw elsewhere move_there)
  ]

  -- The walk ends with an empty hand.
  seated_only :
      (t : CuckooTables) (k : Key) (m : Move) (i : ℕ) {t' : CuckooTables}
      → Kept (seated t i k m) (t.keys i) (t.moves i)
      → is_none (t.moves i) ≡ true
      → seated t i k m ≡ t'
      → Held t' key mv
  seated_only t k m i (inl held) free same = subst (λ s. Held s key mv) same held
  seated_only t k m i (inr (_, same_move)) free same =
      let empty_hand = ap is_none (sym same_move) ∙ free in absurd (cc (sym real ∙ empty_hand))

  -- For a real move: whatever the tables held, or the walk has in hand, an insertion that ends leaves in
  -- the tables.
  pub insert-Held :
      (fuel : ℕ) (t : CuckooTables) (k : Key) (m : Move) (i : ℕ) {t' : CuckooTables}
      → IsSlot k i
      → Kept t k m
      → insert fuel t k m i ≡ some t'
      → Held t' key mv
  unfolding insert
  insert-Held zero t k m i slot kept ends = absurd (cc)
  insert-Held (suc fuel) t k m i slot kept ends = elim (Bool-cases (is_none (t.moves i))) [
    | inl free ↦ seated_only t k m i (exchanged t k m i slot kept) free (cc (rw free at ends))
    | inr taken ↦
        insert-Held fuel (seated t i k m) (t.keys i) (t.moves i) (other_slot (t.keys i) i)
          (other_slot-IsSlot (t.keys i) i) (exchanged t k m i slot kept) (rw taken at ends)
  ]

-- A key that the tables hold with some move is found, and what is found they hold.
pub lookup-Held :
    (t : CuckooTables) (key : Key) (mv : Move)
    → Held t key mv
    → (found : Move) × (lookup t key ≡ some found) × Held t key found
unfolding lookup
lookup-Held t key mv (i, slot, key_there, move_there) = elim (Bool-cases (t.keys (h1 key) == key)) [
  | inl first ↦ (t.moves (h1 key), rw first refl, (h1 key, inl refl, (==_iff _ _).0 first, refl))
  | inr not_first ↦ elim slot [
    | inl at ↦
        let there = ap t.keys (sym at) ∙ key_there in
        absurd (cc (not_first, (==_iff (t.keys (h1 key)) key).1 there))
    | inr at ↦
        let there = ap t.keys (sym at) ∙ key_there in
        let second = (==_iff (t.keys (h2 key)) key).1 there in
        (t.moves (h2 key), rw (not_first, second) refl, (h2 key, inr refl, there, refl))
  ]
]
