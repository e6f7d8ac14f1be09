-- ===== src/Search/TtScore.antt =====
-- crates/rfish-engine/src/search/tt.rs: `value_to_tt` and `value_from_tt`, the scores of the table as
-- distances from the node that holds them.
pub mod Laws
use rfish.Prelude.{ℕ, Bool, not, ◌&&◌, if◌then◌else◌}
use rfish.Prelude.Int.{ℤ, pos, ◌+ℤ◌, ◌-ℤ◌, ltb_ℤ}
use rfish.Board.Value.{Value, Ply, value_none, value_mate, value_tb, value_tb_win_in_max_ply}
use rfish.Board.Value.{value_tb_loss_in_max_ply, is_valid, is_win, is_loss, is_mate, is_mated}

unfoldable pub value_to_tt : Value → Ply → Value
unfolding ◌+ℤ◌ ◌-ℤ◌ is_win is_loss
value_to_tt v ply = if is_win v then v +ℤ pos ply else if is_loss v then v -ℤ pos ply else v

-- More than the plies that the halfmove clock leaves.
abbrev past_clock : ℤ → ℕ → Bool
past_clock distance rule50 = ltb_ℤ (pos 100 -ℤ pos rule50) distance

unfoldable pub value_from_tt : Value → Ply → ℕ → Value
unfolding ◌+ℤ◌ ◌-ℤ◌ is_valid is_win is_loss is_mate is_mated
value_from_tt v ply rule50 =
    if not (is_valid v)
    then value_none
    else if is_win v
    then (if is_mate v && past_clock (value_mate -ℤ v) rule50
        then value_tb_win_in_max_ply -ℤ pos 1
        else if past_clock (value_tb -ℤ v) rule50
        then value_tb_win_in_max_ply -ℤ pos 1
        else v -ℤ pos ply)
    else if is_loss v
    then (if is_mated v && past_clock (value_mate +ℤ v) rule50
        then value_tb_loss_in_max_ply +ℤ pos 1
        else if past_clock (value_tb +ℤ v) rule50
        then value_tb_loss_in_max_ply +ℤ pos 1
        else v +ℤ pos ply)
    else v
