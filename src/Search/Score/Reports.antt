-- ===== src/Search/Score/Reports.antt =====
-- What a reader of the payload learns: the class of the score, and its distance.
use rfish.Prelude.{◌+◌, ◌-◌, ◌/◌, ◌≤◌, ◌≡◌, ◌∙◌, refl, arith, false}
use rfish.Prelude.Int.{ℤ, pos, negsuc, neg, ◌+ℤ◌, ◌-ℤ◌, quot}
use rfish.Board.Value.{Value, Ply, max_ply, mate_in, mated_in, is_win, is_loss, value_infinite}
use rfish.Board.Value as V
use rfish.Search.Score.{mate_word, cp_word, classify, to_uci, is_decisive}

-- The two tests for a decisive score agree.
pub is_decisive_lem : (v : Value) → is_decisive v ≡ V.is_decisive v
unfolding is_decisive V.is_decisive
is_decisive_lem (pos n) = ground arith
is_decisive_lem (negsuc n) = ground arith

mate_reports :
    (to_cp : Value → ℤ) (ply : Ply)
    → ply ≤ max_ply
    → (to_uci (classify to_cp (mate_in ply)) ≡ mate_word (pos ((ply + 1) / 2)))
      × (to_uci (classify to_cp (mated_in ply)) ≡ mate_word (neg (pos (ply / 2))))
unfolding classify to_uci is_decisive mate_in mated_in neg ◌-ℤ◌ ◌+ℤ◌ quot
mate_reports to_cp ply near = (ground arith, ground arith)

tablebase_reports :
    (to_cp : Value → ℤ) (ply : Ply)
    → ply ≤ max_ply
    → (to_uci (classify to_cp (V.value_tb -ℤ pos ply)) ≡ cp_word (pos (20000 - ply)))
      × (to_uci (classify to_cp (pos ply -ℤ V.value_tb)) ≡ cp_word (neg (pos (20000 - ply))))
unfolding classify to_uci is_decisive neg ◌-ℤ◌ ◌+ℤ◌ quot
tablebase_reports to_cp ply near = (ground arith, ground arith)

undecided_report :
    (to_cp : Value → ℤ) (v : Value)
    → V.is_decisive v ≡ false
    → to_uci (classify to_cp v) ≡ cp_word (to_cp v)
unfolding classify to_uci
undecided_report to_cp v undecided =
    let open_score : is_decisive v ≡ false = is_decisive_lem v ∙ undecided in rw open_score refl

-- A mate within `max_ply` plies is reported as its number of moves, rounded up, a mate against the
-- side to move as the negated number, rounded down; a tablebase win within `max_ply` plies as 20000
-- centipawns less the plies, and a loss as the opposite.
pub to_uci_lem :
    (to_cp : Value → ℤ) (ply : Ply)
    → ply ≤ max_ply
    → (to_uci (classify to_cp (mate_in ply)) ≡ mate_word (pos ((ply + 1) / 2)))
      × (to_uci (classify to_cp (mated_in ply)) ≡ mate_word (neg (pos (ply / 2))))
      × (to_uci (classify to_cp (V.value_tb -ℤ pos ply)) ≡ cp_word (pos (20000 - ply)))
      × (to_uci (classify to_cp (pos ply -ℤ V.value_tb)) ≡ cp_word (neg (pos (20000 - ply))))
to_uci_lem to_cp ply near = (
  (mate_reports to_cp ply near).0,
  (mate_reports to_cp ply near).1,
  (tablebase_reports to_cp ply near).0,
  (tablebase_reports to_cp ply near).1,
)
