-- ===== src/Search/MoveSort/Partial.antt =====
-- The partial sort: a descending part with every entry that reaches the limit, and the others behind it.
use rfish.Prelude.{ℕ, suc, ◌+◌, ◌-◌, ◌≡◌, ◌∙◌, refl, arith, ap, ap₂, sym, subst, true, false}
use rfish.Prelude.{
  List, [], ◌∷◌, ◌++◌, length, length-append, get_or, set, All, Bool-cases, inl, inr,
}
use rfish.Prelude.Int.{ℤ, ltb_ℤ, leb_ℤ, ◌≤ℤ◌, ◌<ℤ◌}
use rfish.Search.MoveSort.{
  ScoredMove, blank, sift, partial_round, partial_loop, partial_insertion_sort,
}
use rfish.Search.MoveSort.Insertion.{
  onto, place, get_or-onto, set-onto, sift-onto, length-place, with_score, with_score-onto,
  with_score-place, IsRising, place-IsRising, IsDescending, onto-IsDescending, Above-nil,
}

-- The entries that the sort left behind: the first goes to the end when a better one takes its slot.
abbrev turned : List ScoredMove → List ScoredMove
turned [] = []
turned (x ∷ xs) = xs ++ (x ∷ [])

length-turned : (xs : List ScoredMove) → length (turned xs) ≡ length xs
length-turned [] = refl
length-turned (x ∷ xs) = omega (arith, length-append xs (x ∷ []))

get_or-append :
    (xs ys : List ScoredMove) (k : ℕ) → get_or (xs ++ ys) (length xs + k) blank ≡ get_or ys k blank
get_or-append [] ys k = let same : 0 + k ≡ k = omega arith in ap (λ i. get_or ys i blank) same
get_or-append (x ∷ xs) ys k =
    let next : suc (length xs) + k ≡ suc (length xs + k) = omega arith in
    ap (λ i. get_or (x ∷ xs ++ ys) i blank) next ∙ get_or-append xs ys k

set-append :
    (xs ys : List ScoredMove) (k : ℕ) (v : ScoredMove)
    → set (xs ++ ys) (length xs + k) v ≡ xs ++ set ys k v
set-append [] ys k v = let same : 0 + k ≡ k = omega arith in ap (λ i. set ys i v) same
set-append (x ∷ xs) ys k v =
    let next : suc (length xs) + k ≡ suc (length xs + k) = omega arith in
    ap (λ i. set (x ∷ xs ++ ys) i v) next ∙ ap (λ l. x ∷ l) (set-append xs ys k v)

append_assoc : (xs ys zs : List ScoredMove) → (xs ++ ys) ++ zs ≡ xs ++ (ys ++ zs)
append_assoc [] ys zs = refl
append_assoc (x ∷ xs) ys zs = ap (λ l. x ∷ l) (append_assoc xs ys zs)

append_nil : (xs : List ScoredMove) → xs ++ [] ≡ xs
append_nil [] = refl
append_nil (x ∷ xs) = ap (λ l. x ∷ l) (append_nil xs)

-- The entry that is sorted in, at `p` behind the sorted part and the entries left behind.
entry_at :
    (front mid rest : List ScoredMove) (m : ScoredMove) (p : ℕ)
    → p ≡ length front + length mid
    → get_or (onto front (mid ++ (m ∷ rest))) p blank ≡ m
entry_at front mid rest m p ep =
    get_or-onto front (mid ++ (m ∷ rest)) p (length mid + 0) (omega arith)
    ∙ get_or-append mid (m ∷ rest) 0

-- The slot behind the sorted part is freed.
freed :
    (front mid rest : List ScoredMove) (m : ScoredMove) (p e : ℕ)
    → p ≡ length front + length mid
    → e ≡ length front
    → sift e
        (set (onto front (mid ++ (m ∷ rest))) p (get_or (onto front (mid ++ (m ∷ rest))) e blank))
        m
      ≡ onto (place m front) (turned mid ++ rest)
freed front [] rest m p e ep ee =
    let same : e ≡ p = omega arith in
    let l = onto front (m ∷ rest) in
    let found : get_or l e blank ≡ m =
      ap (λ i. get_or l i blank) same ∙ entry_at front [] rest m p ep in
    ap (λ v. sift e (set l p v) m) found
    ∙ ap (λ t. sift e t m) (set-onto front (m ∷ rest) p 0 m (omega arith))
    ∙ ap (λ i. sift i (onto front (m ∷ rest)) m) ee
    ∙ sift-onto front rest m m
freed front (x ∷ xs) rest m p e ep ee =
    let l = onto front (x ∷ xs ++ (m ∷ rest)) in
    let found : get_or l e blank ≡ x = get_or-onto front (x ∷ xs ++ (m ∷ rest)) e 0 (omega arith) in
    let written : set l p x ≡ onto front (x ∷ xs ++ (x ∷ rest)) =
      set-onto front (x ∷ xs ++ (m ∷ rest)) p (length (x ∷ xs) + 0) x (omega arith)
      ∙ ap (onto front) (set-append (x ∷ xs) (m ∷ rest) 0 x) in
    ap (λ v. sift e (set l p v) m) found
    ∙ ap (λ t. sift e t m) written
    ∙ ap (λ i. sift i (onto front (x ∷ xs ++ (x ∷ rest))) m) ee
    ∙ sift-onto front (xs ++ (x ∷ rest)) x m
    ∙ ap (onto (place m front)) (sym (append_assoc xs (x ∷ []) rest))

-- One round on a sorted part, given from its end, the entries left behind, and the rest.
round-taken :
    (limit : ℤ) (front mid rest : List ScoredMove) (m : ScoredMove) (p sorted_end : ℕ)
    → p ≡ length front + length mid
    → sorted_end + 1 ≡ length front
    → leb_ℤ limit m.score ≡ true
    → partial_round limit p sorted_end (onto front (mid ++ (m ∷ rest)))
      ≡ (sorted_end + 1, onto (place m front) (turned mid ++ rest))
unfolding partial_round
round-taken limit front mid rest m p sorted_end ep es high =
    rw (entry_at front mid rest m p ep, high)
      (ap (λ l. (sorted_end + 1, l)) (freed front mid rest m p (sorted_end + 1) ep es))

round-left :
    (limit : ℤ) (front mid rest : List ScoredMove) (m : ScoredMove) (p sorted_end : ℕ)
    → p ≡ length front + length mid
    → leb_ℤ limit m.score ≡ false
    → partial_round limit p sorted_end (onto front (mid ++ (m ∷ rest)))
      ≡ (sorted_end, onto front (mid ++ (m ∷ rest)))
unfolding partial_round
round-left limit front mid rest m p sorted_end ep low =
    rw (entry_at front mid rest m p ep, low) refl

-- Every entry of the list scores below the limit.
abbrev pub Below : ℤ → List ScoredMove → Type 0
Below limit xs = All (λ (x : ScoredMove). x.score <ℤ limit) xs

Below-append :
    (limit : ℤ) (xs : List ScoredMove) (m : ScoredMove)
    → Below limit xs
    → m.score <ℤ limit
    → Below limit (xs ++ (m ∷ []))
Below-append limit [] m low here = (here, tt)
Below-append limit (x ∷ xs) m low here = (low.0, Below-append limit xs m low.1 here)

Below-turned : (limit : ℤ) (xs : List ScoredMove) → Below limit xs → Below limit (turned xs)
Below-turned limit [] low = tt
Below-turned limit (x ∷ xs) low = Below-append limit xs x low.1 low.0

-- The entries of a score that reaches the limit are not among those below it.
with_score-append :
    (limit s : ℤ) (xs ys : List ScoredMove)
    → limit ≤ℤ s
    → Below limit xs
    → with_score s (xs ++ ys) ≡ with_score s ys
unfolding with_score
with_score-append limit s [] ys reaches low = refl
with_score-append limit s (x ∷ xs) ys reaches low =
    let less : ltb_ℤ x.score s ≡ true = ground (arith, low.0, reaches) in
    rw less (with_score-append limit s xs ys reaches low.1)

loop_step :
    (limit : ℤ) (n p e : ℕ) (l : List ScoredMove) {e' : ℕ} {l' : List ScoredMove}
    → partial_round limit p e l ≡ (e', l')
    → partial_loop limit (suc n) p e l ≡ partial_loop limit n (p + 1) e' l'
unfolding partial_loop
loop_step limit n p e l here =
    ap (λ (r : ℕ × List ScoredMove). partial_loop limit n (p + 1) r.0 r.1) here

-- What a run of the loop makes of a list: a sorted part, given from its end, and entries below the limit.
abbrev Sorted : ℤ → ℤ → List ScoredMove → List ScoredMove → Type 0
Sorted limit s before after =
    (sorted : List ScoredMove) × (low : List ScoredMove) × (after ≡ onto sorted low)
    × IsRising sorted
    × Below limit low
    × (with_score s after ≡ with_score s before)

module _ (limit s : ℤ) (reaches : limit ≤ℤ s) where
  score_taken :
      (front mid rest : List ScoredMove) (m : ScoredMove)
      → Below limit mid
      → with_score s (onto (place m front) (turned mid ++ rest))
        ≡ with_score s (onto front (mid ++ (m ∷ rest)))
  unfolding onto
  score_taken front mid rest m low =
      with_score-onto s (place m front) (turned mid ++ rest)
      ∙ ap₂ onto (with_score-place s m front)
          (with_score-append limit s (turned mid) rest reaches (Below-turned limit mid low))
      ∙ sym (with_score-onto s (m ∷ front) rest)
      ∙ with_score-onto s front (m ∷ rest)
      ∙ ap (onto (with_score s front)) (sym (with_score-append limit s mid (m ∷ rest) reaches low))
      ∙ sym (with_score-onto s front (mid ++ (m ∷ rest)))

  partial_loop-onto :
      (rest front mid : List ScoredMove) (p sorted_end : ℕ)
      → p ≡ length front + length mid
      → sorted_end + 1 ≡ length front
      → IsRising front
      → Below limit mid
      → Sorted limit s
          (onto front (mid ++ rest))
          (partial_loop limit (length rest) p sorted_end (onto front (mid ++ rest)))
  unfolding partial_loop
  partial_loop-onto [] front mid p sorted_end ep es rising low =
      (front, mid, ap (onto front) (append_nil mid), rising, low, refl)
  partial_loop-onto (m ∷ rest) front mid p sorted_end ep es rising low =
      elim (Bool-cases (leb_ℤ limit m.score)) [
        | inl high ↦
            let here = round-taken limit front mid rest m p sorted_end ep es high in
            let (sorted, left, split, sorted_rising, left_low, same) =
              partial_loop-onto rest (place m front) (turned mid) (p + 1) (sorted_end + 1)
                (omega (arith, length-place m front, length-turned mid))
                (omega (arith, length-place m front)) (place-IsRising m front rising)
                (Below-turned limit mid low) in
            subst (Sorted limit s (onto front (mid ++ (m ∷ rest))))
              (sym
                (loop_step limit (length rest) p sorted_end (onto front (mid ++ (m ∷ rest))) here))
              (
                sorted,
                left,
                split,
                sorted_rising,
                left_low,
                same ∙ score_taken front mid rest m low,
              )
        | inr under ↦
            let here = round-left limit front mid rest m p sorted_end ep under in
            let score_low : m.score <ℤ limit = ground (arith, under) in
            let later =
              partial_loop-onto rest front (mid ++ (m ∷ [])) (p + 1) sorted_end
                (omega (arith, length-append mid (m ∷ []))) es rising
                (Below-append limit mid m low score_low) in
            subst (Sorted limit s (onto front (mid ++ (m ∷ rest))))
              (sym
                (loop_step limit (length rest) p sorted_end (onto front (mid ++ (m ∷ rest))) here))
              (subst
                (λ l.
                  Sorted limit s (onto front l)
                    (partial_loop limit (length rest) (p + 1) sorted_end (onto front l)))
                (append_assoc mid (m ∷ []) rest) later)
      ]

onto_append : (xs ys : List ScoredMove) → onto xs ys ≡ onto xs [] ++ ys
unfolding onto
onto_append [] ys = refl
onto_append (x ∷ xs) ys =
    onto_append xs (x ∷ ys)
    ∙ sym (append_assoc (onto xs []) (x ∷ []) ys)
    ∙ ap (λ l. l ++ ys) (sym (onto_append xs (x ∷ [])))

-- For every score that reaches the limit, the partial sort leaves a descending part and behind it only
-- entries that score below the limit, and keeps the moves of this score and their order.
pub partial_insertion_sort_lem :
    (moves : List ScoredMove) (limit s : ℤ)
    → limit ≤ℤ s
    → (best : List ScoredMove) × (low : List ScoredMove) × (partial_insertion_sort moves limit
        ≡ best ++ low)
      × IsDescending best
      × Below limit low
      × (with_score s (partial_insertion_sort moves limit) ≡ with_score s moves)
unfolding partial_insertion_sort partial_loop onto
partial_insertion_sort_lem [] limit s reaches = ([], [], refl, tt, tt, refl)
partial_insertion_sort_lem (m ∷ ms) limit s reaches =
    let count : suc (length ms) - 1 ≡ length ms = omega arith in
    let (sorted, low, split, rising, below, same) =
      partial_loop-onto limit s reaches ms (m ∷ []) [] 1 0 refl refl (tt, tt) tt in
    let start : partial_insertion_sort (m ∷ ms) limit
        ≡ partial_loop limit (length ms) 1 0 (m ∷ ms) =
      ap (λ n. partial_loop limit n 1 0 (m ∷ ms)) count in
    (
      onto sorted [],
      low,
      start ∙ split ∙ onto_append sorted low,
      onto-IsDescending sorted [] rising tt (Above-nil sorted),
      below,
      ap (with_score s) start ∙ same,
    )
