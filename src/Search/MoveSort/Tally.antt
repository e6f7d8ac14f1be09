-- ===== src/Search/MoveSort/Tally.antt =====
-- Both sorts only rearrange: the entries that meet a test are as many after as before.
use rfish.Prelude.{ℕ, zero, suc, ◌+◌, ◌-◌, ◌≤◌, ◌<◌, ◌≡◌, ◌∙◌, refl, arith, ap, Bool}
use rfish.Prelude.{if◌then◌else◌, Bool-cases, inl, inr, List, [], ◌∷◌, ◌++◌, length, length-set}
use rfish.Prelude.{get_or, set, get_or-set_ne, get_or-set_self, ◌==◌}
use rfish.Prelude.Int.{ℤ, ltb_ℤ, leb_ℤ}
use rfish.Search.MoveSort.{
  ScoredMove, blank, sift, full_loop, full_insertion_sort, partial_round, partial_loop,
  partial_insertion_sort,
}
use rfish.Search.MoveSort.Length.{length-sift, length-partial_round}

abbrev pub unit_if : Bool → ℕ
unit_if b = if b then 1 else 0

unfoldable pub tally : (ScoredMove → Bool) → List ScoredMove → ℕ
tally test [] = 0
tally test (x ∷ l) = unit_if (test x) + tally test l

pub tally-append :
    (test : ScoredMove → Bool) (xs ys : List ScoredMove)
    → tally test (xs ++ ys) ≡ tally test xs + tally test ys
unfolding tally
tally-append test [] ys = omega arith
tally-append test (x ∷ xs) ys = omega (arith, tally-append test xs ys)

module _ (test : ScoredMove → Bool) where
  abbrev here : List ScoredMove → ℕ → ℕ
  here l i = unit_if (test (get_or l i blank))

  tally-set :
      (l : List ScoredMove) (i : ℕ) (v : ScoredMove)
      → i < length l
      → tally test (set l i v) + here l i ≡ tally test l + unit_if (test v)
  unfolding tally
  tally-set [] i v low = absurd (omega arith)
  tally-set (x ∷ l) zero v low = omega arith
  tally-set (x ∷ l) (suc i) v low = omega (arith, tally-set l i v (omega arith))

  tally-sift :
      (q : ℕ) (l : List ScoredMove) (m : ScoredMove)
      → q < length l
      → tally test (sift q l m) + here l q ≡ tally test l + unit_if (test m)
  unfolding sift
  tally-sift zero l m low = tally-set l 0 m low
  tally-sift (suc q) l m low =
      let above = get_or l q blank in
      let up = set l (suc q) above in
      let moved = tally-set l (suc q) above low in
      let kept : here up q ≡ unit_if (test above) =
        ap (λ x. unit_if (test x))
          (get_or-set_ne l (suc q) q above blank (λ e. absurd (omega (arith, e)))) in
      let later = tally-sift q up m (omega (arith, length-set l (suc q) above)) in
      elim (Bool-cases (ltb_ℤ above.score m.score)) [
        | inl less ↦ rw less (omega (arith, moved, kept, later))
        | inr not_less ↦ rw not_less (tally-set l (suc q) m low)
      ]

  tally-full_loop :
      (n p : ℕ) (l : List ScoredMove)
      → p + n ≤ length l
      → tally test (full_loop n p l) ≡ tally test l
  unfolding full_loop
  tally-full_loop zero p l fits = refl
  tally-full_loop (suc n) p l fits =
      let m = get_or l p blank in
      let one = tally-sift p l m (omega arith) in
      let rest = tally-full_loop n (p + 1) (sift p l m) (omega (arith, length-sift p l m)) in
      omega (arith, one, rest)

  pub tally-full_insertion_sort :
      (l : List ScoredMove) → tally test (full_insertion_sort l) ≡ tally test l
  unfolding full_insertion_sort full_loop
  tally-full_insertion_sort [] = refl
  tally-full_insertion_sort (x ∷ l) = tally-full_loop (suc (length l) - 1) 1 (x ∷ l) (omega arith)

  -- The slot that the round frees keeps its entry until `sift` reaches it.
  slot_kept :
      (l : List ScoredMove) (p k : ℕ)
      → p < length l
      → get_or (set l p (get_or l k blank)) k blank ≡ get_or l k blank
  slot_kept l p k low = elim (Bool-cases (p == k)) [
    | inl same ↦
        let at : p ≡ k = ground (arith, same) in
        rw at (get_or-set_self l k (get_or l k blank) blank (omega (arith, at)))
    | inr other ↦ get_or-set_ne l p k (get_or l k blank) blank (λ e. ground (arith, other, e))
  ]

  tally-partial_round :
      (limit : ℤ) (p e : ℕ) (l : List ScoredMove)
      → p < length l
      → e + 1 ≤ p
      → tally test (partial_round limit p e l).1 ≡ tally test l
  unfolding partial_round
  tally-partial_round limit p e l low le =
      let tmp = get_or l p blank in
      let front = get_or l (e + 1) blank in
      let freed = set l p front in
      let moved = tally-set l p front low in
      let slot = ap (λ x. unit_if (test x)) (slot_kept l p (e + 1) low) in
      let sifted = tally-sift (e + 1) freed tmp (omega (arith, length-set l p front)) in
      elim (Bool-cases (leb_ℤ limit tmp.score)) [
        | inl high ↦ rw high (omega (arith, moved, slot, sifted))
        | inr under ↦ rw under refl
      ]

  partial_round_end :
      (limit : ℤ) (p e : ℕ) (l : List ScoredMove) → (partial_round limit p e l).0 ≤ e + 1
  unfolding partial_round
  partial_round_end limit p e l = elim (Bool-cases (leb_ℤ limit (get_or l p blank).score)) [
    | inl high ↦ rw high (omega arith)
    | inr under ↦ rw under (omega arith)
  ]

  tally-partial_loop :
      (limit : ℤ) (n p e : ℕ) (l : List ScoredMove)
      → p + n ≤ length l
      → e + 1 ≤ p
      → tally test (partial_loop limit n p e l) ≡ tally test l
  unfolding partial_loop
  tally-partial_loop limit zero p e l fits le = refl
  tally-partial_loop limit (suc n) p e l fits le =
      let next = partial_round limit p e l in
      tally-partial_loop limit n (p + 1) next.0 next.1
        (omega (arith, length-partial_round limit p e l))
        (omega (arith, partial_round_end limit p e l))
      ∙ tally-partial_round limit p e l (omega arith) le

  pub tally-partial_insertion_sort :
      (l : List ScoredMove) (limit : ℤ) → tally test (partial_insertion_sort l limit) ≡ tally test l
  unfolding partial_insertion_sort partial_loop
  tally-partial_insertion_sort [] limit = refl
  tally-partial_insertion_sort (x ∷ l) limit =
      tally-partial_loop limit (suc (length l) - 1) 1 0 (x ∷ l) (omega arith) (omega arith)
