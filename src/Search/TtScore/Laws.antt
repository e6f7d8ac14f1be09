-- ===== src/Search/TtScore/Laws.antt =====
-- Scores through the table.
use rfish.Prelude.{ℕ, ◌+◌, ◌-◌, ◌≤◌, ◌<◌, ◌≡◌, arith, true, ◌⊎◌}
use rfish.Prelude.Int.{pos, negsuc, abs_ℕ}
use rfish.Board.Value.{Value, Ply, is_valid, is_win, is_loss}
use rfish.Board.Value.{max_ply}
use rfish.Search.TtScore.{value_to_tt, value_from_tt}

-- A score of a node at `ply`: undecided; a mate no nearer than the node; or a tablebase result, which
-- lies as far below the best as the node below the root.
abbrev pub OfNode : Value → Ply → Type 0
OfNode v ply =
    (ply ≤ max_ply) × (abs_ℕ v ≤ 32000 - ply) × ((abs_ℕ v ≤ 31753 - ply) ⊎ (31754 ≤ abs_ℕ v))

-- The plies from the node to the mate or the tablebase win are within the halfmove clock.
abbrev pub InClock : Value → Ply → ℕ → Type 0
InClock v ply rule50 =
    (abs_ℕ v < 31507)
    ⊎ (32000 + rule50 ≤ abs_ℕ v + ply + 100)
    ⊎ ((abs_ℕ v ≤ 31753 - ply) × (31753 + rule50 ≤ abs_ℕ v + ply + 100))

-- A node's score survives the table at the ply that stored it, while the clock leaves the distance.
pub from-to_tt :
    (v : Value) (ply : Ply) (rule50 : ℕ)
    → OfNode v ply
    → InClock v ply rule50
    → rule50 ≤ 100
    → value_from_tt (value_to_tt v ply) ply rule50 ≡ v
unfolding value_from_tt value_to_tt
from-to_tt (pos n) ply rule50 h k r = ground arith
from-to_tt (negsuc n) ply rule50 h k r = ground arith

-- What the clock leaves: a stored mate distance that fits it, or a stored tablebase distance.
abbrev pub ClockLeaves : Value → ℕ → Type 0
ClockLeaves v rule50 =
    (32000 + rule50 ≤ abs_ℕ v + 100) ⊎ ((abs_ℕ v ≤ 31753) × (31753 + rule50 ≤ abs_ℕ v + 100))

-- A score that the table gives back as a proven win was stored as one, at a distance that the halfmove
-- clock leaves: an expiring clock never yields a win.
pub win-from_tt :
    (v : Value) (ply : Ply) (rule50 : ℕ)
    → ply ≤ max_ply
    → is_valid v ≡ true
    → rule50 ≤ 100
    → is_win (value_from_tt v ply rule50) ≡ true
    → (is_win v ≡ true) × ClockLeaves v rule50
unfolding value_from_tt
win-from_tt (pos n) ply rule50 near valid r proven = ground arith
win-from_tt (negsuc n) ply rule50 near valid r proven = ground arith

-- A score that the table gives back as a proven loss was stored as one, at a distance that the halfmove
-- clock leaves: an expiring clock never yields a loss.
pub loss-from_tt :
    (v : Value) (ply : Ply) (rule50 : ℕ)
    → ply ≤ max_ply
    → is_valid v ≡ true
    → rule50 ≤ 100
    → is_loss (value_from_tt v ply rule50) ≡ true
    → (is_loss v ≡ true) × ClockLeaves v rule50
unfolding value_from_tt
loss-from_tt (pos n) ply rule50 near valid r proven = ground arith
loss-from_tt (negsuc n) ply rule50 near valid r proven = ground arith
