-- ===== src/Search/MoveSort.antt =====
-- crates/rfish-engine/src/search/movepick.rs: the two insertion sorts of the move picker. The slice is a
-- list changed in place; every index that the loops read is inside it.
pub mod Insertion
pub mod Partial
pub mod Length
pub mod Tally
use rfish.Prelude.{ℕ, zero, suc, ◌+◌, ◌-◌, Bool, if◌then◌else◌, List, [], ◌∷◌}
use rfish.Prelude.{length, get_or, set}
use rfish.Prelude.Int.{ℤ, pos, ltb_ℤ, leb_ℤ}
use rfish.Board.Move.{Move, no_move}

pub record ScoredMove : Type 0 where
  pub mv : Move
  pub score : ℤ

-- What a slot of the buffer holds at first.
abbrev pub blank : ScoredMove
blank = record { mv = no_move; score = pos 0 }

-- The inner loop: from `q` on down, entries that score less move up by one, and `tmp` takes the place.
unfoldable pub sift : ℕ → List ScoredMove → ScoredMove → List ScoredMove
sift zero moves tmp = set moves 0 tmp
sift (suc q) moves tmp =
    let above = get_or moves q blank in
    let rest = sift q (set moves (suc q) above) tmp in
    if ltb_ℤ above.score tmp.score then rest else set moves (suc q) tmp

-- The outer loop over the remaining `n` indices from `p` on.
unfoldable pub full_loop : ℕ → ℕ → List ScoredMove → List ScoredMove
unfolding sift
full_loop zero p moves = moves
full_loop (suc n) p moves = full_loop n (p + 1) (sift p moves (get_or moves p blank))

unfoldable pub full_insertion_sort : List ScoredMove → List ScoredMove
unfolding full_loop
full_insertion_sort moves = full_loop (length moves - 1) 1 moves

-- One round at `p`, with the index of the last entry of the sorted prefix.
unfoldable pub partial_round : ℤ → ℕ → ℕ → List ScoredMove → ℕ × List ScoredMove
unfolding sift
partial_round limit p sorted_end moves =
    let tmp = get_or moves p blank in
    if leb_ℤ limit tmp.score
    then (
      sorted_end + 1,
      sift (sorted_end + 1) (set moves p (get_or moves (sorted_end + 1) blank)) tmp,
    )
    else (sorted_end, moves)

-- The outer loop over the remaining `n` indices from `p` on.
unfoldable pub partial_loop : ℤ → ℕ → ℕ → ℕ → List ScoredMove → List ScoredMove
unfolding partial_round
partial_loop limit zero p sorted_end moves = moves
partial_loop limit (suc n) p sorted_end moves =
    let (next_end, next) = partial_round limit p sorted_end moves in
    partial_loop limit n (p + 1) next_end next

unfoldable pub partial_insertion_sort : List ScoredMove → ℤ → List ScoredMove
unfolding partial_loop
partial_insertion_sort moves limit = partial_loop limit (length moves - 1) 1 0 moves
