-- ===== src/Board/Bitboard/Steps.antt =====
-- crates/rfish-engine/src/board/bitboard.rs: the attacks of the pieces that step, and the masks of
-- files and ranks. A table over the squares is the function that gives its entry.
pub mod Leapers
use rfish.Prelude.{
  ℕ, ◌+◌, ◌-◌, ◌*◌, ◌/◌, ◌%◌, ◌^◌, Bool, ◌&&◌, leb, if◌then◌else◌, bit_or, bit_xor, max, List, [],
  ◌∷◌,
}
use rfish.Prelude.Int.{ℤ, pos, negsuc, ◌+ℤ◌, leb_ℤ, ltb_ℤ, pos_part}
use rfish.Board.Piece.{Color, white, black, color_index}
use rfish.Board.Square.{Square, Rank, apart, file, rank}
use rfish.Board.Bitboard.{Bitboard, empty, file_a, shl}

abbrev pub rank_1 : Bitboard
rank_1 = 0xff

unfoldable pub file_bb : Square → Bitboard
unfolding file
file_bb sq = shl file_a (file sq)

unfoldable pub rank_bb : Square → Bitboard
unfolding rank
rank_bb sq = shl rank_1 (8 * rank sq)

unfoldable pub relative_rank_bb : Color → Rank → Bitboard
relative_rank_bb c r = shl rank_1 (8 * bit_xor r (color_index c * 7))

-- One round of the inner loop: the step joins the set unless it leaves the board or wraps round.
unfoldable pub with_step : Square → Bitboard → ℤ → Bitboard
unfolding ◌+ℤ◌
with_step s t step =
    let to = pos s +ℤ step in
    let du = pos_part to in
    let dist = max (apart (s % 8) (du % 8)) (apart (s / 8) (du / 8)) in
    if leb_ℤ (pos 0) to && ltb_ℤ to (pos 64) && leb dist 2 then bit_or t (2 ^ du) else t

unfoldable pub step_attacks : List ℤ → Square → Bitboard → Bitboard
unfolding with_step
step_attacks [] s t = t
step_attacks (step ∷ steps) s t = step_attacks steps s (with_step s t step)

unfoldable pub knight_attacks : Square → Bitboard
unfolding step_attacks
knight_attacks s =
    step_attacks
      (negsuc 16 ∷ negsuc 14 ∷ negsuc 9 ∷ negsuc 5 ∷ pos 6 ∷ pos 10 ∷ pos 15 ∷ pos 17 ∷ []) s empty

unfoldable pub king_attacks : Square → Bitboard
unfolding step_attacks
king_attacks s =
    step_attacks (negsuc 8 ∷ negsuc 7 ∷ negsuc 6 ∷ negsuc 0 ∷ pos 1 ∷ pos 7 ∷ pos 8 ∷ pos 9 ∷ []) s
      empty

unfoldable pub pawn_attacks_from : Color → Square → Bitboard
unfolding step_attacks
pawn_attacks_from white s = step_attacks (pos 7 ∷ pos 9 ∷ []) s empty
pawn_attacks_from black s = step_attacks (negsuc 6 ∷ negsuc 8 ∷ []) s empty
