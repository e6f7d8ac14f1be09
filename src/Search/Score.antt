-- ===== src/Search/Score.antt =====
-- crates/rfish-engine/src/search/score.rs: the classification of a score and its UCI payload, as the
-- word it opens with and the number after it. The win-rate model's conversion to centipawns, in
-- floating point, is the parameter `to_cp`.
pub mod Reports
use rfish.Prelude.{ℕ, ◌+◌, ◌-◌, Bool, true, false, not, if◌then◌else◌, leb}
use rfish.Prelude.Int.{ℤ, pos, negsuc, neg, ◌+ℤ◌, ◌-ℤ◌, quot, abs, abs_ℕ, ltb_ℤ, leb_ℤ}
use rfish.Board.Value.{Value, value_mate, value_tb, value_tb_win_in_max_ply, value_zero}

abbrev pub tb_cp : ℤ
tb_cp = pos 20000

pub data Score : Type 0 where
  mate : ℤ → Score
  tablebase : ℤ → Bool → Score
  internal_units : ℤ → Score

unfoldable pub is_decisive : Value → Bool
is_decisive v = leb_ℤ value_tb_win_in_max_ply (abs v)

unfoldable pub classify : (Value → ℤ) → Value → Score
unfolding is_decisive neg ◌-ℤ◌
classify to_cp v =
    if not (is_decisive v)
    then internal_units (to_cp v)
    else if leb_ℤ (abs v) value_tb
    then (let distance = value_tb -ℤ abs v in
        if ltb_ℤ value_zero v then tablebase distance true else tablebase (neg distance) false)
    else (let distance = value_mate -ℤ abs v in
        mate (if ltb_ℤ value_zero v then distance else neg distance))

-- The payload's first word, with its number.
pub data Payload : Type 0 where
  mate_word : ℤ → Payload
  cp_word : ℤ → Payload

unfoldable pub to_uci : Score → Payload
unfolding neg ◌+ℤ◌ ◌-ℤ◌ quot
to_uci (mate plies) = mate_word (quot (if ltb_ℤ (pos 0) plies then plies +ℤ pos 1 else plies) 2)
to_uci (tablebase plies win) = cp_word ((if win then tb_cp else neg tb_cp) -ℤ plies)
to_uci (internal_units value) = cp_word value
