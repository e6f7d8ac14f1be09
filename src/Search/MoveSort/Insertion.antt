-- ===== src/Search/MoveSort/Insertion.antt =====
-- The full sort is a stable insertion sort.
use rfish.Prelude.{ℕ, suc, ◌+◌, ◌-◌, ◌≡◌, ◌∙◌, refl, arith, ap, sym, Bool, true, false}
use rfish.Prelude.{
  if◌then◌else◌, not, ◌&&◌, List, [], ◌∷◌, length, get_or, set, All, Bool-cases, inl, inr,
}
use rfish.Prelude.Int.{ℤ, ltb_ℤ, ◌≤ℤ◌}
use rfish.Search.MoveSort.{ScoredMove, blank, sift, full_loop, full_insertion_sort}

-- A list in front of another, given from its end.
unfoldable pub onto : List ScoredMove → List ScoredMove → List ScoredMove
onto [] ys = ys
onto (x ∷ xs) ys = onto xs (x ∷ ys)

-- Where `sift` puts an entry, in the sorted part given from its end.
unfoldable pub place : ScoredMove → List ScoredMove → List ScoredMove
place m [] = m ∷ []
place m (z ∷ zs) = if ltb_ℤ z.score m.score then z ∷ place m zs else m ∷ z ∷ zs

place_all : List ScoredMove → List ScoredMove → List ScoredMove
unfolding place
place_all [] front = front
place_all (m ∷ ms) front = place_all ms (place m front)

pub get_or-onto :
    (front ys : List ScoredMove) (i k : ℕ)
    → i ≡ length front + k
    → get_or (onto front ys) i blank ≡ get_or ys k blank
unfolding onto
get_or-onto [] ys i k e = let same : i ≡ k = omega arith in rw same refl
get_or-onto (x ∷ front) ys i k e = get_or-onto front (x ∷ ys) i (suc k) (omega arith)

pub set-onto :
    (front ys : List ScoredMove) (i k : ℕ) (m : ScoredMove)
    → i ≡ length front + k
    → set (onto front ys) i m ≡ onto front (set ys k m)
unfolding onto
set-onto [] ys i k m e = let same : i ≡ k = omega arith in rw same refl
set-onto (x ∷ front) ys i k m e = set-onto front (x ∷ ys) i (suc k) m (omega arith)

pub sift-onto :
    (front rest : List ScoredMove) (y m : ScoredMove)
    → sift (length front) (onto front (y ∷ rest)) m ≡ onto (place m front) rest
unfolding sift onto place
sift-onto [] rest y m = refl
sift-onto (z ∷ zs) rest y m =
    let last = get_or-onto zs (z ∷ y ∷ rest) (length zs) 0 (omega arith) in
    let up = set-onto zs (z ∷ y ∷ rest) (suc (length zs)) 1 z (omega arith) in
    let stay = set-onto zs (z ∷ y ∷ rest) (suc (length zs)) 1 m (omega arith) in
    let moved = sift-onto zs (z ∷ rest) z m in
    rw (last, up, stay, moved)
      (elim (Bool-cases (ltb_ℤ z.score m.score)) [
        | inl less ↦ rw less refl
        | inr not_less ↦ rw not_less refl
      ])

pub length-place : (m : ScoredMove) (zs : List ScoredMove) → length (place m zs) ≡ suc (length zs)
unfolding place
length-place m [] = refl
length-place m (z ∷ zs) = elim (Bool-cases (ltb_ℤ z.score m.score)) [
  | inl less ↦ rw less (ap suc (length-place m zs))
  | inr not_less ↦ rw not_less refl
]

full_loop-onto :
    (rest front : List ScoredMove) (p : ℕ)
    → p ≡ length front
    → full_loop (length rest) p (onto front rest) ≡ onto (place_all rest front) []
unfolding full_loop place_all
full_loop-onto [] front p e = refl
full_loop-onto (m ∷ ms) front p e =
    let at = get_or-onto front (m ∷ ms) p 0 (omega arith) in
    let one = ap (λ (q : ℕ). sift q (onto front (m ∷ ms)) m) e ∙ sift-onto front ms m m in
    let step = ap (λ (x : ScoredMove). sift p (onto front (m ∷ ms)) x) at ∙ one in
    ap (λ (moves : List ScoredMove). full_loop (length ms) (p + 1) moves) step
    ∙ full_loop-onto ms (place m front) (p + 1) (omega (arith, length-place m front))

-- The entries of one score, in order.
unfoldable pub with_score : ℤ → List ScoredMove → List ScoredMove
with_score s [] = []
with_score s (m ∷ ms) =
    let rest = with_score s ms in
    if not (ltb_ℤ m.score s) && not (ltb_ℤ s m.score) then m ∷ rest else rest

-- No entry scores less than a later one.
abbrev pub IsDescending : List ScoredMove → Type 0
IsDescending [] = Unit
IsDescending (m ∷ ms) = All (λ (x : ScoredMove). x.score ≤ℤ m.score) ms × IsDescending ms

pub with_score-onto :
    (s : ℤ) (xs ys : List ScoredMove)
    → with_score s (onto xs ys) ≡ onto (with_score s xs) (with_score s ys)
unfolding with_score onto
with_score-onto s [] ys = refl
with_score-onto s (x ∷ xs) ys =
    with_score-onto s xs (x ∷ ys)
    ∙ elim (Bool-cases (not (ltb_ℤ x.score s) && not (ltb_ℤ s x.score))) [
      | inl same ↦ rw same refl
      | inr other ↦ rw other refl
    ]

abbrev scores : ℤ → ScoredMove → Bool
scores s m = not (ltb_ℤ m.score s) && not (ltb_ℤ s m.score)

-- Two entries of different scores are not both of one.
one_score :
    (s : ℤ) (m z : ScoredMove)
    → ltb_ℤ z.score m.score ≡ true
    → scores s m ≡ true
    → scores s z ≡ false
one_score s m z less same = ground arith

with_score_swap :
    (s : ℤ) (m z : ScoredMove) (ms : List ScoredMove)
    → ltb_ℤ z.score m.score ≡ true
    → with_score s (z ∷ m ∷ ms) ≡ with_score s (m ∷ z ∷ ms)
unfolding with_score
with_score_swap s m z ms less = elim (Bool-cases (scores s m)) [
  | inl same ↦ rw (same, one_score s m z less same) refl
  | inr other ↦ rw other refl
]

with_score-cons :
    (s : ℤ) (z : ScoredMove) (xs ys : List ScoredMove)
    → with_score s xs ≡ with_score s ys
    → with_score s (z ∷ xs) ≡ with_score s (z ∷ ys)
unfolding with_score
with_score-cons s z xs ys same = rw same refl

pub with_score-place :
    (s : ℤ) (m : ScoredMove) (zs : List ScoredMove)
    → with_score s (place m zs) ≡ with_score s (m ∷ zs)
unfolding with_score place
with_score-place s m [] = refl
with_score-place s m (z ∷ zs) = elim (Bool-cases (ltb_ℤ z.score m.score)) [
  | inr not_less ↦ rw not_less refl
  | inl less ↦ rw less (
      with_score-cons s z (place m zs) (m ∷ zs) (with_score-place s m zs)
      ∙ with_score_swap s m z zs less)
]

with_score-place_all :
    (s : ℤ) (ms front : List ScoredMove)
    → with_score s (onto (place_all ms front) []) ≡ with_score s (onto front ms)
unfolding place_all onto
with_score-place_all s [] front = refl
with_score-place_all s (m ∷ ms) front =
    with_score-place_all s ms (place m front)
    ∙ with_score-onto s (place m front) ms
    ∙ ap (λ (xs : List ScoredMove). onto xs (with_score s ms)) (with_score-place s m front)
    ∙ sym (with_score-onto s (m ∷ front) ms)

-- A sorted part, given from its end.
abbrev pub IsRising : List ScoredMove → Type 0
IsRising [] = Unit
IsRising (z ∷ zs) = All (λ (x : ScoredMove). z.score ≤ℤ x.score) zs × IsRising zs

All-place :
    (P : ScoredMove → Type 0) (m : ScoredMove) (zs : List ScoredMove)
    → P m
    → All P zs
    → All P (place m zs)
unfolding place
All-place P m [] here rest = (here, tt)
All-place P m (z ∷ zs) here rest = elim (Bool-cases (ltb_ℤ z.score m.score)) [
  | inl less ↦ rw less (rest.0, All-place P m zs here rest.1)
  | inr not_less ↦ rw not_less (here, rest)
]

All-lower :
    (a b : ScoredMove) (xs : List ScoredMove)
    → a.score ≤ℤ b.score
    → All (λ (x : ScoredMove). b.score ≤ℤ x.score) xs
    → All (λ (x : ScoredMove). a.score ≤ℤ x.score) xs
All-lower a b [] le h = tt
All-lower a b (x ∷ xs) le h = (omega (arith, le, h.0), All-lower a b xs le h.1)

pub place-IsRising : (m : ScoredMove) (zs : List ScoredMove) → IsRising zs → IsRising (place m zs)
unfolding place
place-IsRising m [] h = (tt, tt)
place-IsRising m (z ∷ zs) h = elim (Bool-cases (ltb_ℤ z.score m.score)) [
  | inl less ↦
      let le : z.score ≤ℤ m.score = ground arith in
      rw less
        (All-place (λ (x : ScoredMove). z.score ≤ℤ x.score) m zs le h.0, place-IsRising m zs h.1)
  | inr not_less ↦
      let le : m.score ≤ℤ z.score = ground arith in rw not_less ((le, All-lower m z zs le h.0), h)
]

place_all-IsRising : (ms front : List ScoredMove) → IsRising front → IsRising (place_all ms front)
unfolding place_all
place_all-IsRising [] front h = h
place_all-IsRising (m ∷ ms) front h =
    place_all-IsRising ms (place m front) (place-IsRising m front h)

-- Every entry of the second list scores at most as much as every entry of the first.
abbrev pub Above : List ScoredMove → List ScoredMove → Type 0
Above xs ys = All (λ (x : ScoredMove). All (λ (y : ScoredMove). y.score ≤ℤ x.score) ys) xs

Above-cons :
    (z : ScoredMove) (zs ys : List ScoredMove)
    → All (λ (x : ScoredMove). z.score ≤ℤ x.score) zs
    → Above zs ys
    → Above zs (z ∷ ys)
Above-cons z [] ys low above = tt
Above-cons z (x ∷ zs) ys low above = ((low.0, above.0), Above-cons z zs ys low.1 above.1)

pub Above-nil : (xs : List ScoredMove) → Above xs []
Above-nil [] = tt
Above-nil (x ∷ xs) = (tt, Above-nil xs)

pub onto-IsDescending :
    (front ys : List ScoredMove)
    → IsRising front
    → IsDescending ys
    → Above front ys
    → IsDescending (onto front ys)
unfolding onto
onto-IsDescending [] ys rising falling above = falling
onto-IsDescending (z ∷ zs) ys rising falling above =
    onto-IsDescending zs (z ∷ ys) rising.1 (above.0, falling) (Above-cons z zs ys rising.0 above.1)

-- The full sort orders the moves by score, the best first, and is stable: for each score it keeps the
-- moves of this score and their order, so that no move is lost or made up.
pub full_insertion_sort_lem :
    (moves : List ScoredMove) (s : ℤ)
    → IsDescending (full_insertion_sort moves)
      × (with_score s (full_insertion_sort moves) ≡ with_score s moves)
unfolding full_insertion_sort onto full_loop
full_insertion_sort_lem [] s = (tt, refl)
full_insertion_sort_lem (m ∷ ms) s =
    let front = m ∷ [] in
    let sorted = place_all ms front in
    let count : suc (length ms) - 1 ≡ length ms = omega arith in
    let end_result : full_insertion_sort (m ∷ ms) ≡ onto sorted [] =
      ap (λ (n : ℕ). full_loop n 1 (m ∷ ms)) count ∙ full_loop-onto ms front 1 refl in
    let rising = place_all-IsRising ms front (tt, tt) in
    rw end_result
      (onto-IsDescending sorted [] rising tt (Above-nil sorted), with_score-place_all s ms front)
