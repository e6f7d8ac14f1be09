-- ===== src/Search/MoveSort/Length.antt =====
-- The sorts keep the length of the slice.
use rfish.Prelude.{ℕ, zero, suc, ◌+◌, ◌-◌, ◌≡◌, ◌∙◌, refl, Bool-cases, inl, inr, length, length-set}
use rfish.Prelude.{List, get_or, set}
use rfish.Prelude.Int.{ℤ, ltb_ℤ, leb_ℤ}
use rfish.Search.MoveSort.{
  ScoredMove, blank, sift, full_loop, full_insertion_sort, partial_round, partial_loop,
  partial_insertion_sort,
}

pub length-sift : (q : ℕ) (l : List ScoredMove) (m : ScoredMove) → length (sift q l m) ≡ length l
unfolding sift
length-sift zero l m = length-set l 0 m
length-sift (suc q) l m = elim (Bool-cases (ltb_ℤ (get_or l q blank).score m.score)) [
  | inl less ↦
      rw less (
        length-sift q (set l (suc q) (get_or l q blank)) m
        ∙ length-set l (suc q) (get_or l q blank))
  | inr not_less ↦ rw not_less (length-set l (suc q) m)
]

length-full_loop : (n p : ℕ) (l : List ScoredMove) → length (full_loop n p l) ≡ length l
unfolding full_loop
length-full_loop zero p l = refl
length-full_loop (suc n) p l =
    length-full_loop n (p + 1) (sift p l (get_or l p blank)) ∙ length-sift p l (get_or l p blank)

pub length-full_insertion_sort : (l : List ScoredMove) → length (full_insertion_sort l) ≡ length l
unfolding full_insertion_sort
length-full_insertion_sort l = length-full_loop (length l - 1) 1 l

pub length-partial_round :
    (limit : ℤ) (p e : ℕ) (l : List ScoredMove) → length (partial_round limit p e l).1 ≡ length l
unfolding partial_round
length-partial_round limit p e l = elim (Bool-cases (leb_ℤ limit (get_or l p blank).score)) [
  | inr under ↦ rw under refl
  | inl high ↦ rw high (
      length-sift (e + 1) (set l p (get_or l (e + 1) blank)) (get_or l p blank)
      ∙ length-set l p (get_or l (e + 1) blank))
]

length-partial_loop :
    (limit : ℤ) (n p e : ℕ) (l : List ScoredMove) → length (partial_loop limit n p e l) ≡ length l
unfolding partial_loop
length-partial_loop limit zero p e l = refl
length-partial_loop limit (suc n) p e l =
    let next = partial_round limit p e l in
    length-partial_loop limit n (p + 1) next.0 next.1 ∙ length-partial_round limit p e l

pub length-partial_insertion_sort :
    (l : List ScoredMove) (limit : ℤ) → length (partial_insertion_sort l limit) ≡ length l
unfolding partial_insertion_sort
length-partial_insertion_sort l limit = length-partial_loop limit (length l - 1) 1 0 l
