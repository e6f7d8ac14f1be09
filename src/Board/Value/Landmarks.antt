-- ===== src/Board/Value/Landmarks.antt =====
-- The classes of scores, and the key that the transposition table is addressed by.
use rfish.Prelude.{
  ℕ, ◌+◌, ◌-◌, ◌*◌, ◌/◌, ◌%◌, ◌^◌, ◌≤◌, ◌<◌, ◌≡◌, arith, ap, true, false, not, ◌&&◌, bit_xor,
}
use rfish.Prelude.Int.{pos, negsuc, ◌-ℤ◌, neg, ◌<ℤ◌}
use rfish.Prelude.Bits.{digit, digit-lt, digit-bit_xor, digit_ext}
use rfish.Board.Value.{Value, Ply, max_ply, mate_in, mated_in, is_valid, is_win, is_loss, is_mate}
use native.Mathlib.Decide.{dec_lt}
use rfish.Board.Value.{is_mated, is_decisive, is_mate_or_mated, for_tt}

-- A score and its negation are in opposite classes, no score is won and lost, a mate is a win, and
-- only decisive scores are mates.
pub negated_classes :
    (v : Value)
    → (is_win (neg v) ≡ is_loss v)
      × (is_loss (neg v) ≡ is_win v)
      × (is_mate (neg v) ≡ is_mated v)
      × (is_mated (neg v) ≡ is_mate v)
      × (is_win v && is_loss v ≡ false)
      × (is_mate v && not (is_win v) ≡ false)
      × (is_mate_or_mated v && not (is_decisive v) ≡ false)
unfolding neg is_win is_loss is_mate is_mated is_mate_or_mated is_decisive
negated_classes (pos n) = ground arith
negated_classes (negsuc n) = ground arith

-- The score of a mate within `max_ply` plies is a valid mate score, its negation is the score of being
-- mated at that ply, and of two mates the nearer one is the better for the winner and the worse for
-- the loser.
pub mate_in_lem :
    (ply later : Ply)
    → ply < later
    → later ≤ max_ply
    → (is_mate (mate_in later) ≡ true)
      × (is_mated (mated_in later) ≡ true)
      × (is_valid (mate_in later) ≡ true)
      × (neg (mate_in later) ≡ mated_in later)
      × (mate_in later <ℤ mate_in ply)
      × (mated_in ply <ℤ mated_in later)
unfolding neg is_mate is_mated is_valid mate_in mated_in ◌-ℤ◌
mate_in_lem ply later near low = ground arith

bit_xor_cancel : (a b c : ℕ) → bit_xor a c ≡ bit_xor b c → a ≡ b
bit_xor_cancel a b c same = digit_ext a b λ i.
    let cols : digit (bit_xor a c) i ≡ digit (bit_xor b c) i = ap (λ (x : ℕ). digit x i) same in
    omega (
      arith,
      digit-bit_xor i a c,
      digit-bit_xor i b c,
      digit-lt a i,
      digit-lt b i,
      digit-lt c i,
      cols,
    )

-- At one halfmove clock two positions share a table key only if they share their own key.
pub for_tt_injective : (k l rule50 : ℕ) → for_tt k rule50 ≡ for_tt l rule50 → k ≡ l
unfolding for_tt
for_tt_injective k l rule50 same = elim (dec_lt rule50 14) [
  | yes h ↦ ground arith
  | no h ↦
      let seed = (rule50 - 14) / 8 in
      let mix = (seed * 6364136223846793005 % 2 ^ 64 + 1442695040888963407) % 2 ^ 64 in
      let eq : bit_xor k mix ≡ bit_xor l mix = ground arith in bit_xor_cancel k l mix eq
]
