-- ===== src/Board/Value.antt =====
-- crates/rfish-engine/src/board/types.rs: `Value`, its landmarks and predicates, and `Bound`. A score
-- is an integer: the engine keeps them far inside an `i32`. A ply is a distance from the root.
pub mod Landmarks
use rfish.Prelude.{ℕ, ◌+◌, ◌-◌, Bool, ◌||◌, ◌==◌, not, if◌then◌else◌, bit_and}
use rfish.Prelude.Int.{ℤ, pos, negsuc, ◌+ℤ◌, ◌-ℤ◌, leb_ℤ, ltb_ℤ, ℤ-discrete, neg}
use rfish.Prelude.{bit_xor, ltb, ◌*◌, ◌/◌, ◌%◌, ◌^◌, Option, none, some, leb, List, [], ◌∷◌, get_or}

abbrev pub Value : Type 0
Value = ℤ

abbrev pub Ply : Type 0
Ply = ℕ

abbrev pub max_ply : ℕ
max_ply = 246

abbrev pub value_zero : Value
value_zero = pos 0

abbrev pub value_none : Value
value_none = pos 32002

abbrev pub value_infinite : Value
value_infinite = pos 32001

abbrev pub value_mate : Value
value_mate = pos 32000

abbrev pub value_mate_in_max_ply : Value
value_mate_in_max_ply = pos (32000 - max_ply)

-- The negated landmarks: `-n` is `negsuc (n - 1)`.
abbrev pub value_mated_in_max_ply : Value
value_mated_in_max_ply = negsuc (32000 - max_ply - 1)

abbrev pub value_tb : Value
value_tb = pos (32000 - max_ply - 1)

abbrev pub value_tb_win_in_max_ply : Value
value_tb_win_in_max_ply = pos (32000 - max_ply - 1 - max_ply)

abbrev pub value_tb_loss_in_max_ply : Value
value_tb_loss_in_max_ply = negsuc (32000 - max_ply - 1 - max_ply - 1)

unfoldable pub mate_in : Ply → Value
unfolding ◌-ℤ◌
mate_in ply = value_mate -ℤ pos ply

unfoldable pub mated_in : Ply → Value
unfolding ◌-ℤ◌
mated_in ply = pos ply -ℤ value_mate

-- `PIECE_VALUE`, whose entry past its sixteen panics.
unfoldable pub piece_value : ℕ → Value
piece_value pc =
    get_or
      (pos 0
        ∷ pos 208
        ∷ pos 781
        ∷ pos 825
        ∷ pos 1276
        ∷ pos 2538
        ∷ pos 0
        ∷ pos 0
        ∷ pos 0
        ∷ pos 208
        ∷ pos 781
        ∷ pos 825
        ∷ pos 1276
        ∷ pos 2538
        ∷ pos 0
        ∷ pos 0
        ∷ [])
      pc value_zero

abbrev eq_ℤ : ℤ → ℤ → Bool
eq_ℤ (pos a) (pos b) = a == b
eq_ℤ (negsuc a) (negsuc b) = a == b
eq_ℤ _ _ = Bool.false

unfoldable pub is_valid : Value → Bool
is_valid v = not (eq_ℤ v value_none)

unfoldable pub is_win : Value → Bool
is_win v = leb_ℤ value_tb_win_in_max_ply v

unfoldable pub is_loss : Value → Bool
is_loss v = leb_ℤ v value_tb_loss_in_max_ply

unfoldable pub is_decisive : Value → Bool
unfolding is_win is_loss
is_decisive v = is_win v || is_loss v

unfoldable pub is_mate : Value → Bool
is_mate v = leb_ℤ value_mate_in_max_ply v

unfoldable pub is_mated : Value → Bool
is_mated v = leb_ℤ v value_mated_in_max_ply

unfoldable pub is_mate_or_mated : Value → Bool
unfolding is_mate is_mated
is_mate_or_mated v = is_mate v || is_mated v

pub data Bound : Type 0 where
  no_bound upper lower exact : Bound

abbrev pub bound_index : Bound → ℕ
bound_index no_bound = 0
bound_index upper = 1
bound_index lower = 2
bound_index exact = 3

-- Without its `debug_assert`: the release build masks.
unfoldable pub bound_from_raw : ℕ → Bound
bound_from_raw v =
    let bits = bit_and v 3 in
    if bits == 0 then no_bound else if bits == 1 then upper else if bits == 2 then lower else exact

-- The key the transposition table is addressed by: the position's, mixed with a coarse halfmove
-- clock once the clock has reached fourteen.
unfoldable pub for_tt : ℕ → ℕ → ℕ
for_tt key rule50 =
    if ltb rule50 14
    then key
    else let seed = (rule50 - 14) / 8 in
      bit_xor key ((seed * 6364136223846793005 % 2 ^ 64 + 1442695040888963407) % 2 ^ 64)
