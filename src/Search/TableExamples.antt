-- ===== src/Search/TableExamples.antt =====
-- The theorems of the scores and of the history tables at concrete scores and tables.
use rfish.Prelude.{ℕ, ◌≤◌, ◌≡◌, refl, arith, true, inl, inr}
use rfish.Prelude.{some, replicate, length-replicate, All-replicate}
use rfish.Prelude.Int.{ℤ, pos, negsuc, abs_ℕ, ◌≤ℤ◌}
use rfish.Board.Value.{is_win}
use rfish.Prelude.{List, [], ◌∷◌}
use rfish.Prelude.{◌++◌}
use rfish.Search.MoveSort.Partial.{Below, partial_insertion_sort_lem}
use rfish.Search.MoveSort.{partial_insertion_sort, ScoredMove, full_insertion_sort}
use rfish.Search.MoveSort.Insertion.{IsDescending, with_score, full_insertion_sort_lem}
use rfish.Search.TtScore.{value_to_tt, value_from_tt}
use rfish.Search.TtScore.Laws.{ClockLeaves, from-to_tt, win-from_tt}
use rfish.Search.History.{Plane, Planes, apply_gravity}
use rfish.Search.History.{continuation_update, cont_plane_index}
use rfish.Search.History.{get_planes, in_check, no_capture}
use rfish.Search.History.Gravity.{apply_gravity_bonus}
use rfish.Search.History.Tables.{IsRow, IsPlane, IsPlanes}
use rfish.Search.History.Keys.{continuation_update_lem}

from-to_tt_example : value_from_tt (value_to_tt (pos 31990) 4) 4 20 ≡ pos 31990
from-to_tt_example =
    from-to_tt (pos 31990) 4 20 (omega arith, omega arith, inr (omega arith))
      (inr (inl (omega arith))) (omega arith)

win-from_tt_example : (is_win (pos 31990) ≡ true) × ClockLeaves (pos 31990) 20
unfolding value_from_tt
win-from_tt_example = win-from_tt (pos 31990) 4 20 (omega arith) refl (omega arith) refl

apply_gravity_bonus_example :
    (abs_ℕ (apply_gravity 7183 (negsuc 6999) (pos 90000)) ≤ 7183)
    × (negsuc 6999 ≤ℤ apply_gravity 7183 (negsuc 6999) (pos 90000))
apply_gravity_bonus_example =
    apply_gravity_bonus 7183 (negsuc 6999) (pos 90000) (omega arith) (omega arith) (omega arith)
      (omega arith)

-- Tables of one entry throughout.
replicate-IsRow : (limit k : ℕ) (v : ℤ) → abs_ℕ v ≤ limit → IsRow limit k (replicate k v)
replicate-IsRow limit k v h =
    (length-replicate k v, All-replicate (λ (w : ℤ). abs_ℕ w ≤ limit) k v h)

replicate-IsPlane :
    (limit m k : ℕ) (v : ℤ) → abs_ℕ v ≤ limit → IsPlane limit m k (replicate m (replicate k v))
replicate-IsPlane limit m k v h = (
  length-replicate m (replicate k v),
  All-replicate (IsRow limit k) m (replicate k v) (replicate-IsRow limit k v h),
)

replicate-IsPlanes :
    (limit n m k : ℕ) (v : ℤ)
    → abs_ℕ v ≤ limit
    → IsPlanes limit n m k (replicate n (replicate m (replicate k v)))
replicate-IsPlanes limit n m k v h = (
  length-replicate n (replicate m (replicate k v)),
  All-replicate (IsPlane limit m k) n (replicate m (replicate k v))
      (replicate-IsPlane limit m k v h),
)

abbrev butterflies : Plane
butterflies = replicate 2 (replicate 65536 (pos 68))

abbrev captures : Planes
captures = replicate 16 (replicate 64 (replicate 8 (negsuc 688)))

abbrev continuations : Planes
continuations = replicate 4096 (replicate 16 (replicate 64 (negsuc 585)))

continuation_update_lem_example :
    let idx = cont_plane_index in_check no_capture 10 42 in
    (u : Planes) × (continuation_update continuations idx 2 18 (pos 900) ≡ some u)
    × IsPlanes 30000 4096 16 64 u
    × ((v : ℤ) × (get_planes continuations idx 2 18 ≡ some v)
        × (get_planes u idx 2 18 ≡ some (apply_gravity 30000 v (pos 900))))
    × (get_planes u 5 3 18 ≡ get_planes continuations 5 3 18)
continuation_update_lem_example =
    continuation_update_lem continuations in_check no_capture 10 2 42 18 (pos 900)
      (replicate-IsPlanes 30000 4096 16 64 (negsuc 585) (omega arith)) 5 3 18 (omega arith)
      (omega arith) (omega arith) (omega arith) (inr (inl (omega arith)))

abbrev pawn_rows : Planes
pawn_rows = replicate 8192 (replicate 16 (replicate 64 (pos 0)))

abbrev mover : ℕ
mover = 10

abbrev target : ℕ
target = 42

abbrev three_moves : List ScoredMove
three_moves =
    record { mv = 130; score = negsuc 4 }
    ∷ record { mv = 796; score = pos 12 }
    ∷ record { mv = 131; score = negsuc 4 }
    ∷ []

full_insertion_sort_lem_example :
    IsDescending (full_insertion_sort three_moves)
    × (with_score (negsuc 4) (full_insertion_sort three_moves) ≡ with_score (negsuc 4) three_moves)
full_insertion_sort_lem_example = full_insertion_sort_lem three_moves (negsuc 4)

partial_insertion_sort_lem_example :
    (best : List ScoredMove) × (low : List ScoredMove) × (partial_insertion_sort three_moves (pos 0)
      ≡ best ++ low)
    × IsDescending best
    × Below (pos 0) low
    × (with_score (pos 12) (partial_insertion_sort three_moves (pos 0))
        ≡ with_score (pos 12) three_moves)
partial_insertion_sort_lem_example =
    partial_insertion_sort_lem three_moves (pos 0) (pos 12) (omega arith)
