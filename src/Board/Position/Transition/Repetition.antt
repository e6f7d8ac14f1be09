-- ===== src/Board/Position/Transition/Repetition.antt =====
-- The repetition walk finds the nearest earlier state with the key, two plies at a time.
use rfish.Prelude.{
  ℕ, zero, suc, ◌+◌, ◌-◌, ◌*◌, ◌≤◌, ◌<◌, ◌≡◌, ◌≢◌, arith, refl, ap, sym, subst, ◌∙◌, inl, inr,
}
use rfish.Prelude.{
  true, false, ◌==◌, leb, if◌then◌else◌, some, List, get_elem?, get_elem?-of_lt, lt-of_get_elem?,
  min, Bool-cases, Option-cases,
}
use rfish.Prelude.Int.{ℤ, pos, neg, abs_ℕ}
use rfish.Board.Zobrist.{Key}
use rfish.Board.Position.{StateInfo}
use rfish.Board.Position.Transition.{repetition_walk, set_repetition}

-- The state `i` plies back is there and has the key.
abbrev pub Repeats : List StateInfo → Key → ℕ → StateInfo → Type 0
Repeats prev key i s = (get_elem? prev (i - 1) ≡ some s) × (s.key ≡ key)

-- What a walk that found something at distance `n` answers: the sign tells whether that state was
-- itself a repetition. No state between `i` and `n`, two plies apart, has the key.
abbrev pub Nearest : List StateInfo → Key → ℕ → ℕ → ℤ → ℕ → Type 0
Nearest prev key i stop r n =
    (s : StateInfo) × (n ≤ stop)
    × Repeats prev key n s
    × (r ≡ (if abs_ℕ s.repetition == 0 then pos n else neg (pos n)))
    × ((j : ℕ) → i + 2 * j < n → (other : StateInfo) → Repeats prev key (i + 2 * j) other → ⊥)

some_injective : {a b : StateInfo} → some a ≡ some b → a ≡ b
some_injective e = cc

-- A walk from `i` that does not answer 0 has found the nearest state with the key at an even distance
-- from `i`, no further than the end, and answers its distance, negated if that state was itself a repetition.
repetition_walk-Nearest :
    (fuel i stop : ℕ) (key : Key) (prev : List StateInfo)
    → abs_ℕ (repetition_walk fuel i stop key prev) ≢ 0
    → (k : ℕ) × Nearest prev key i stop (repetition_walk fuel i stop key prev) (i + 2 * k)
unfolding repetition_walk
repetition_walk-Nearest zero i stop key prev = λ found. absurd (found refl)
repetition_walk-Nearest (suc fuel) i stop key prev = elim (Bool-cases (leb i stop)) [
  | inr past ↦ rw past (λ found. absurd (found refl))
  | inl within ↦ elim (Option-cases (get_elem? prev (i - 1))) [
    | inl gone ↦ rw (within, gone) (λ found. absurd (found refl))
    | inr (s, at) ↦ elim (Bool-cases (s.key == key)) [
      | inl same ↦ rw (within, at, same) (λ found. (0, here_first s within at same))
      | inr differs ↦
          rw (within, at, differs)
            (λ found.
              let (k, far) = repetition_walk-Nearest fuel (i + 2) stop key prev found in
              (k + 1, further s at differs k far))
    ]
  ]
]
  where
    here_first :
        (s : StateInfo)
        → leb i stop ≡ true
        → get_elem? prev (i - 1) ≡ some s
        → (s.key == key) ≡ true
        → Nearest prev key i stop
            (if abs_ℕ s.repetition == 0 then pos i else neg (pos i))
            (i + 2 * 0)
    here_first s within at same =
        let order : i ≡ i + 2 * 0 = omega arith in
        subst
          (λ n. Nearest prev key i stop (if abs_ℕ s.repetition == 0 then pos i else neg (pos i)) n)
          order (s, ground arith, (at, ground arith), refl, λ j below. absurd (omega arith))

    further :
        (s : StateInfo)
        → get_elem? prev (i - 1) ≡ some s
        → (s.key == key) ≡ false
        → (k : ℕ) {r : ℤ} → Nearest prev key (i + 2) stop r (i + 2 + 2 * k)
        → Nearest prev key i stop r (i + 2 * (k + 1))
    further s at differs k {r} (t, bound, repeats, answer, before) =
        let order : i + 2 + 2 * k ≡ i + 2 * (k + 1) = omega arith in
        subst (λ n. Nearest prev key i stop r n) order (t, bound, repeats, answer, passed)
      where
        passed :
            (j : ℕ)
            → i + 2 * j < i + 2 + 2 * k
            → (other : StateInfo) → Repeats prev key (i + 2 * j) other
            → ⊥
        passed zero below other (there, has_key) =
            let same_place : i + 2 * 0 - 1 ≡ i - 1 = omega arith in
            let same_state : s ≡ other =
              some_injective (sym at ∙ sym (ap (get_elem? prev) same_place) ∙ there) in
            let same_key : s.key ≡ key = ap (λ (x : StateInfo). x.key) same_state ∙ has_key in
            ground (arith, same_key, differs)
        passed (suc j) below other rep =
            let shifted : i + 2 * suc j ≡ i + 2 + 2 * j = omega arith in
            before j (omega arith) other (subst (λ n. Repeats prev key n other) shifted rep)

-- Every state nearer than one that is in the archive is there.
there_before :
    (prev : List StateInfo) (a b : ℕ) {s : StateInfo}
    → get_elem? prev b ≡ some s
    → a ≤ b
    → (t : StateInfo) × (get_elem? prev a ≡ some t)
there_before prev a b {s} at le =
    let below = lt-of_get_elem? prev b s at in get_elem?-of_lt prev a (omega (arith, below))

found_here :
    (s : StateInfo) (i : ℕ)
    → 1 ≤ i
    → abs_ℕ (if abs_ℕ s.repetition == 0 then pos i else neg (pos i)) ≢ 0
unfolding neg
found_here s i h e = ground (arith, e)

walk_finds :
    (fuel i stop : ℕ) (key : Key) (prev : List StateInfo) (k : ℕ) (s : StateInfo)
    → 1 ≤ i
    → k < fuel
    → i + 2 * k ≤ stop
    → Repeats prev key (i + 2 * k) s
    → abs_ℕ (repetition_walk fuel i stop key prev) ≢ 0
unfolding repetition_walk
walk_finds zero i stop key prev k s hi enough bound rep = absurd (omega arith)
walk_finds (suc fuel) i stop key prev zero s hi enough bound rep =
    let within : leb i stop ≡ true = ground (arith, bound) in
    let same_place : i + 2 * 0 - 1 ≡ i - 1 = omega arith in
    let at : get_elem? prev (i - 1) ≡ some s = sym (ap (get_elem? prev) same_place) ∙ rep.0 in
    let same : (s.key == key) ≡ true = ground (arith, rep.1) in
    rw (within, at, same) (found_here s i hi)
walk_finds (suc fuel) i stop key prev (suc k) s hi enough bound rep =
    let within : leb i stop ≡ true = ground (arith, bound) in
    let (t, at) = there_before prev (i - 1) (i + 2 * suc k - 1) rep.0 (omega arith) in
    let shifted : i + 2 * suc k ≡ i + 2 + 2 * k = omega arith in
    let rest =
      walk_finds fuel (i + 2) stop key prev k s (omega arith) (omega arith) (omega arith)
        (subst (λ d. Repeats prev key d s) shifted rep) in
    elim (Bool-cases (t.key == key)) [
      | inl same ↦ rw (within, at, same) (found_here t i hi)
      | inr differs ↦ rw (within, at, differs) rest
    ]

-- When a state at an even distance of four or more, within both clocks, has the state's key, the
-- repetition that is recorded is that of the nearest such state.
pub set_repetition-Nearest :
    (prev : List StateInfo) (st : StateInfo) (k : ℕ) (s : StateInfo)
    → 4 + 2 * k ≤ min st.rule50 st.plies_from_null
    → Repeats prev st.key (4 + 2 * k) s
    → (n : ℕ) × Nearest prev st.key 4
        (min st.rule50 st.plies_from_null)
        (set_repetition prev st).repetition
        (4 + 2 * n)
unfolding set_repetition
set_repetition-Nearest prev st k s bound rep =
    let stop = min st.rule50 st.plies_from_null in
    repetition_walk-Nearest stop 4 stop st.key prev
      (walk_finds stop 4 stop st.key prev k s (omega arith) (omega (arith, bound)) bound rep)
