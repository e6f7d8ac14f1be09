-- ===== src/Search/TtEntry.antt =====
-- crates/rfish-engine/src/search/tt.rs: the bytes and words of a table entry.
pub mod Meta
pub mod Main
pub mod Age
use rfish.Prelude.{ℕ, ◌+◌, ◌-◌, ◌*◌, ◌/◌, ◌%◌, ◌^◌, Bool, true, false, not, ◌==◌, bit_and, bit_or}
use rfish.Prelude.Int.{ℤ, pos, negsuc, ◌+ℤ◌, from_u16, to_u16}
use rfish.Board.Move.{Move, no_move}
use rfish.Board.Value.{Value, Bound, no_bound, bound_index, bound_from_raw, value_none}

abbrev pub cluster_size : ℕ
cluster_size = 3

abbrev pub cluster_bytes : ℕ
cluster_bytes = 32

-- `DEPTH_NONE` is -3.
abbrev pub depth_none : ℤ
depth_none = negsuc 2

abbrev pub generation_bits : ℕ
generation_bits = 5

abbrev pub generation_mask : ℕ
generation_mask = 2 ^ 5 - 1

abbrev pub bound_shift : ℕ
bound_shift = 5

abbrev pub pv_shift : ℕ
pv_shift = 7

abbrev pub u8 : ℕ → ℕ
u8 n = n % 2 ^ 8

abbrev pub u16 : ℕ → ℕ
u16 n = n % 2 ^ 16

abbrev pub u64 : ℕ → ℕ
u64 n = n % 2 ^ 64

-- `!m` of a 64-bit word.
abbrev pub not_u64 : ℕ → ℕ
not_u64 m = 2 ^ 64 - 1 - m

abbrev pub bit_of : Bool → ℕ
bit_of true = 1
bit_of false = 0

pub record TtData : Type 0 where
  pub mv : Move
  pub value : Value
  pub eval : Value
  pub depth : ℤ
  pub bound : Bound
  pub is_pv : Bool

-- `current.wrapping_sub(gen_bound) & GENERATION_MASK`.
unfoldable pub relative_age : ℕ → ℕ → ℕ
relative_age gen_bound current = bit_and (u8 (current + 2 ^ 8 - gen_bound)) generation_mask

unfoldable pub unpack_meta : ℕ → ℕ → ℕ × ℕ
unpack_meta meta slot =
    let shift = slot * 16 in (u8 (meta / 2 ^ shift), u8 (meta / 2 ^ (shift + 8)))

unfoldable pub pack_meta : ℕ → ℕ → ℕ → ℕ → ℕ
pack_meta meta slot depth8 gen_bound =
    let shift = slot * 16 in
    let cleared = bit_and meta (not_u64 (u64 (0xffff * 2 ^ shift))) in
    bit_or (bit_or cleared (u64 (depth8 * 2 ^ shift))) (u64 (gen_bound * 2 ^ (shift + 8)))

-- The generation, bound and PV flag of a new entry in one byte.
unfoldable pub pack_gen_bound : ℕ → Bound → Bool → ℕ
pack_gen_bound cur_gen bound is_pv =
    bit_or (bit_or cur_gen (u8 (bound_index bound * 2 ^ bound_shift)))
      (u8 (bit_of is_pv * 2 ^ pv_shift))

-- The word with its move replaced.
unfoldable pub with_move : ℕ → ℕ → ℕ
with_move main packed_move =
    bit_or (bit_and main (not_u64 (u64 (0xffff * 2 ^ 16)))) (u64 (packed_move * 2 ^ 16))

-- A whole new entry word.
unfoldable pub pack_main : ℕ → ℕ → Value → Value → ℕ
pack_main key16 packed_move value eval =
    bit_or (bit_or (bit_or key16 (u64 (packed_move * 2 ^ 16))) (u64 (to_u16 value * 2 ^ 32)))
      (u64 (to_u16 eval * 2 ^ 48))

unfoldable pub bound_of : ℕ → Bound
bound_of gen_bound = bound_from_raw (bit_and (gen_bound / 2 ^ bound_shift) 3)

unfoldable pub decode : ℕ → ℕ → ℕ → TtData
unfolding ◌+ℤ◌ bound_of
decode main depth8 gen_bound = record {
  mv = u16 (main / 2 ^ 16);
  value = from_u16 (main / 2 ^ 32);
  eval = from_u16 (main / 2 ^ 48);
  depth = depth_none +ℤ pos depth8;
  bound = bound_of gen_bound;
  is_pv = not (bit_and gen_bound (2 ^ pv_shift) == 0);
}

unfoldable pub empty_data : TtData
empty_data = record {
  mv = no_move;
  value = value_none;
  eval = value_none;
  depth = depth_none;
  bound = no_bound;
  is_pv = false;
}
