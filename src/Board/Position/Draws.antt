-- ===== src/Board/Position/Draws.antt =====
-- crates/rfish-engine/src/board/position.rs: the tests for repetitions, on the distances that the states
-- record. A distance is less than the ply also when it is negative.
use rfish.Prelude.{
  ℕ, zero, suc, ◌≤◌, ◌≡◌, ◌↔◌, refl, arith, min, Bool, true, false, not, ◌&&◌, ltb, ◌==◌,
  if◌then◌else◌,
}
use rfish.Prelude.{List, [], ◌∷◌, ◌≢◌, Bool-cases, inl, inr}
use rfish.Prelude.Int.{pos, abs_ℕ, ltb_ℤ}
use rfish.Board.Value.{Ply}
use rfish.Board.Position.{StateInfo, Position}

unfoldable pub is_repetition : Position → Ply → Bool
is_repetition p ply = not (abs_ℕ p.st.repetition == 0) && ltb_ℤ p.st.repetition (pos ply)

abbrev reversible : StateInfo → ℕ
reversible s = min s.rule50 s.plies_from_null

-- The states from the newest back.
unfoldable pub repeated_before : List StateInfo → Bool
repeated_before [] = false
repeated_before (s ∷ older) =
    let rest = repeated_before older in
    if ltb (reversible s) 4 then false else if not (abs_ℕ s.repetition == 0) then true else rest

unfoldable pub has_repeated : Position → Bool
unfolding repeated_before
has_repeated p =
    if ltb (reversible p.st) 4
    then false
    else if not (abs_ℕ p.st.repetition == 0)
    then true
    else repeated_before p.prev

-- The entry `n` is a repetition, and up to it, itself included, both clocks stand at four or more.
abbrev pub RepeatedAt : List StateInfo → ℕ → Type 0
RepeatedAt [] n = ⊥
RepeatedAt (s ∷ older) zero = (4 ≤ reversible s) × (abs_ℕ s.repetition ≢ 0)
RepeatedAt (s ∷ older) (suc n) = (4 ≤ reversible s) × RepeatedAt older n

found_at : (l : List StateInfo) → repeated_before l ≡ true → (n : ℕ) × RepeatedAt l n
unfolding repeated_before
found_at [] = λ e. cc
found_at (s ∷ older) = elim (Bool-cases (ltb (reversible s) 4)) [
  | inl few ↦ rw few (λ e. cc)
  | inr enough ↦ elim (Bool-cases (abs_ℕ s.repetition == 0)) [
    | inl never ↦
        rw (enough, never) (λ e. let (n, h) = found_at older e in (suc n, (ground arith, h)))
    | inr repeats ↦ rw (enough, repeats) (λ e. (0, (ground arith, ground arith)))
  ]
]

at_found : (l : List StateInfo) (n : ℕ) → RepeatedAt l n → repeated_before l ≡ true
unfolding repeated_before
at_found [] n h = absurd h
at_found (s ∷ older) zero h =
    let enough : ltb (reversible s) 4 ≡ false = ground (arith, h.0) in
    let repeats : (abs_ℕ s.repetition == 0) ≡ false = ground (arith, h.1) in
    rw (enough, repeats) refl
at_found (s ∷ older) (suc n) h =
    let enough : ltb (reversible s) 4 ≡ false = ground (arith, h.0) in
    elim (Bool-cases (abs_ℕ s.repetition == 0)) [
      | inl never ↦ rw (enough, never) (at_found older n h.1)
      | inr repeats ↦ rw (enough, repeats) refl
    ]

-- A position has repeated exactly when its state or an earlier one is a repetition with both clocks at
-- four or more there and in every later state.
pub has_repeated-RepeatedAt :
    (p : Position) → (has_repeated p ≡ true) ↔ ((n : ℕ) × RepeatedAt (p.st ∷ p.prev) n)
unfolding has_repeated
has_repeated-RepeatedAt p = (found_at (p.st ∷ p.prev), (λ (n, h). at_found (p.st ∷ p.prev) n h))
