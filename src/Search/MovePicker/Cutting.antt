-- ===== src/Search/MovePicker/Cutting.antt =====
-- The partial sort of the quiets leaves no good quiet behind one that is not, from the depth on at which
-- its limit reaches the threshold.
use rfish.Prelude.{ℕ, ◌≡◌, ◌⊎◌, refl, arith, subst, sym, true, false, Bool-cases, inl, inr, [], ◌∷◌}
use rfish.Prelude.{◌++◌, All}
use rfish.Prelude.Int.{ℤ, pos, negsuc, neg, ◌*ℤ◌, ◌≤ℤ◌}
use rfish.Board.MoveGen.{quiets}
use rfish.Search.MoveSort.{ScoredMove}
use rfish.Search.MoveSort.Insertion.{IsDescending}
use rfish.Search.MoveSort.Partial.{Below, partial_insertion_sort_lem}
use rfish.Search.MovePicker.{
  Node, MoveBuf, rescore, quiet_sort_limit, sorted_past, is_good_quiet, good_quiet_threshold,
}
use rfish.Search.MovePicker.Pending.{unscored, quiet_order, IsCut}

limit-le : (depth : ℤ) → sorted_past depth ≡ true → quiet_sort_limit depth ≤ℤ good_quiet_threshold
unfolding sorted_past quiet_sort_limit neg ◌*ℤ◌
limit-le (pos n) past = ground arith
limit-le (negsuc n) past = ground arith

All-low :
    (limit : ℤ) (low : MoveBuf)
    → limit ≤ℤ good_quiet_threshold
    → Below limit low
    → All (λ (x : ScoredMove). is_good_quiet x ≡ false) low
All-low limit [] le below = tt
All-low limit (x ∷ low) le below = (ground (arith, le, below.0), All-low limit low le below.1)

All-under :
    (m : ScoredMove) (best low : MoveBuf)
    → is_good_quiet m ≡ false
    → All (λ (x : ScoredMove). x.score ≤ℤ m.score) best
    → All (λ (x : ScoredMove). is_good_quiet x ≡ false) low
    → All (λ (x : ScoredMove). is_good_quiet x ≡ false) (best ++ low)
All-under m [] low bad under rest = rest
All-under m (x ∷ best) low bad under rest =
    (ground (arith, bad, under.0), All-under m best low bad under.1 rest)

IsCut-of_parts :
    (best low : MoveBuf)
    → IsDescending best
    → All (λ (x : ScoredMove). is_good_quiet x ≡ false) low
    → IsCut (best ++ low)
unfolding IsCut
IsCut-of_parts [] [] falling bad = tt
IsCut-of_parts [] (x ∷ low) falling bad = (inr bad.1, IsCut-of_parts [] low tt bad.1)
IsCut-of_parts (m ∷ best) low falling bad = (
  elim (Bool-cases (is_good_quiet m)) [
    | inl good ↦ inl good
    | inr not_good ↦ inr (All-under m best low not_good falling.0 bad)
  ],
  IsCut-of_parts best low falling.1 bad,
)

pub quiet-IsCut :
    (node : Node) (depth : ℤ) (e : ℕ)
    → (sorted_past depth ≡ false) ⊎ ((e ≡ e) × IsCut (quiet_order node depth))
unfolding quiet_order
quiet-IsCut node depth e = elim (Bool-cases (sorted_past depth)) [
  | inr early ↦ inl early
  | inl past ↦
      let limit = quiet_sort_limit depth in
      let qs = rescore (node.score quiets) (unscored (node.generate quiets)) in
      let (best, low, split, falling, below, same) =
        partial_insertion_sort_lem qs limit limit (omega arith) in
      inr (
        refl,
        subst IsCut (sym split)
            (IsCut-of_parts best low falling (All-low limit low (limit-le depth past) below)),
      )
]
