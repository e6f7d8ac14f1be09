-- ===== src/Search/TtEntry/Main.antt =====
-- The entry word: four sixteen-bit fields.
use rfish.Prelude.{
  ℕ, ◌+◌, ◌*◌, ◌/◌, ◌%◌, ◌^◌, ◌<◌, ◌≡◌, arith, refl, ◌∙◌, ◌==◌, not, bit_and, bit_or, Bool, true,
  false,
}
use rfish.Prelude.Bits.{
  bit_and_gap, bit_or_disjoint, bit_or_fields, bit_and_fields, bit_and-zero, bit_or-zero,
  bit_and_mask, zero-bit_or,
}
use rfish.Prelude.Int.{
  ℤ, to_u16, to_u16-lt, from_u16, from_u16-to_u16, pos, ◌+ℤ◌, ◌≤ℤ◌, i16_min, i16_max,
}
use rfish.Board.Value.{Bound, no_bound, bound_index, bound_from_raw}
use rfish.Search.TtEntry.{
  with_move, pack_main, pack_gen_bound, bound_of, decode, u16, bit_of, depth_none,
}

-- A field put above the fields so far.
bit_or_above : (k q r : ℕ) → r < 2 ^ k → bit_or r (q * 2 ^ k) ≡ q * 2 ^ k + r
bit_or_above k q r h = ground (arith, bit_or_fields k 0 r q 0, zero-bit_or q, bit_or-zero r)

pub pack_main_lem :
    (key16 packed_move : ℕ) (value eval : ℤ)
    → key16 < 65536
    → packed_move < 65536
    → pack_main key16 packed_move value eval
      ≡ to_u16 eval * 281474976710656 + to_u16 value * 4294967296 + packed_move * 65536 + key16
unfolding pack_main
pack_main_lem key16 packed_move value eval hk hm =
    let hv = to_u16-lt value in
    let he = to_u16-lt eval in
    ground (
      arith,
      bit_or_above 16 packed_move key16,
      bit_or_above 32 (to_u16 value) (packed_move * 65536 + key16),
      bit_or_above 48 (to_u16 eval) (to_u16 value * 4294967296 + packed_move * 65536 + key16),
    )

-- Replacing the move leaves the key fragment and both scores.
pub with_move_lem :
    (main packed_move : ℕ)
    → main < 2 ^ 64
    → packed_move < 65536
    → with_move main packed_move ≡ (main / 4294967296 * 65536 + packed_move) * 65536 + main % 65536
unfolding with_move
with_move_lem main packed_move hm hp = ground (
  arith,
  bit_and_gap 32 32 16 main,
  bit_or_fields 16 (main / 4294967296 * 65536) (main % 65536) packed_move 0,
  bit_or_disjoint 16 (main / 4294967296) packed_move,
  bit_or-zero (main % 65536),
)

pub bound_index-lt : (b : Bound) → bound_index b < 4
bound_index-lt no_bound = omega arith
bound_index-lt _ = omega arith

pub bit_of-lt : (b : Bool) → bit_of b < 2
bit_of-lt true = omega arith
bit_of-lt false = omega arith

pub pack_gen_bound_lem :
    (cur_gen : ℕ) (bound : Bound) (is_pv : Bool)
    → cur_gen < 32
    → pack_gen_bound cur_gen bound is_pv ≡ bit_of is_pv * 128 + bound_index bound * 32 + cur_gen
unfolding pack_gen_bound
pack_gen_bound_lem cur_gen bound is_pv hg = ground (
  arith,
  bound_index-lt bound,
  bit_of-lt is_pv,
  bit_or_above 5 (bound_index bound) cur_gen,
  bit_or_above 7 (bit_of is_pv) (bound_index bound * 32 + cur_gen),
)

bound_from_raw_lem : (v : ℕ) (b : Bound) → v % 4 ≡ bound_index b → bound_from_raw v ≡ b
unfolding bound_from_raw
bound_from_raw_lem v b h = ground (arith, bit_and_mask 2 v)

pub bound_of-pack_gen_bound :
    (cur_gen : ℕ) (bound : Bound) (is_pv : Bool)
    → cur_gen < 32
    → bound_of (pack_gen_bound cur_gen bound is_pv) ≡ bound
unfolding bound_of
bound_of-pack_gen_bound cur_gen bound is_pv hg =
    let fits = bound_index-lt bound in
    bound_from_raw_lem (bit_and (pack_gen_bound cur_gen bound is_pv / 2 ^ 5) 3) bound (
      omega (
        arith,
        bit_and_mask 2 (pack_gen_bound cur_gen bound is_pv / 2 ^ 5),
        pack_gen_bound_lem cur_gen bound is_pv hg,
      ))

-- The flag bit alone, above the generation and the bound.
bit_and_flag : (a : ℕ) → bit_and a 128 ≡ a / 128 % 2 * 128
bit_and_flag a = ground (
  arith,
  bit_and_fields 7 (a / 128) (a % 128) 1 0,
  bit_and_mask 1 (a / 128),
  bit_and-zero (a % 128),
)

from_u16_cong : (a b : ℕ) → a % 65536 ≡ b % 65536 → from_u16 a ≡ from_u16 b
unfolding from_u16
from_u16_cong a b h = rw h

flag_of_bit : (b : Bool) → not (bit_of b * 128 == 0) ≡ b
flag_of_bit true = refl
flag_of_bit false = refl

is_pv-pack_gen_bound :
    (cur_gen : ℕ) (bound : Bound) (is_pv : Bool)
    → cur_gen < 32
    → not (bit_and (pack_gen_bound cur_gen bound is_pv) 128 == 0) ≡ is_pv
is_pv-pack_gen_bound cur_gen bound is_pv hg =
    let flag : bit_and (pack_gen_bound cur_gen bound is_pv) 128 ≡ bit_of is_pv * 128 = omega (
      arith,
      bit_and_flag (pack_gen_bound cur_gen bound is_pv),
      pack_gen_bound_lem cur_gen bound is_pv hg,
      bound_index-lt bound,
      bit_of-lt is_pv,
    ) in
    rw flag (flag_of_bit is_pv)

-- A new entry decodes to what was stored, when the key fragment, the move and both scores fit sixteen
-- bits and the generation five.
pub decode-pack :
    (key16 packed_move : ℕ) (value eval : ℤ) (depth8 cur_gen : ℕ) (bound : Bound) (is_pv : Bool)
    → key16 < 65536
    → packed_move < 65536
    → i16_min ≤ℤ value
    → value ≤ℤ i16_max
    → i16_min ≤ℤ eval
    → eval ≤ℤ i16_max
    → cur_gen < 32
    → decode (pack_main key16 packed_move value eval) depth8 (pack_gen_bound cur_gen bound is_pv)
      ≡ record {
        mv = packed_move;
        value = value;
        eval = eval;
        depth = depth_none +ℤ pos depth8;
        bound = bound;
        is_pv = is_pv;
      }
unfolding decode
decode-pack key16 packed_move value eval depth8 cur_gen bound is_pv hk hm v1 v2 e1 e2 hg = λ i.
    record {
      mv = move_back i;
      value = value_back i;
      eval = eval_back i;
      depth = depth_none +ℤ pos depth8;
      bound = bound_of-pack_gen_bound cur_gen bound is_pv hg i;
      is_pv = is_pv-pack_gen_bound cur_gen bound is_pv hg i;
    }
  where
    main : ℕ
    main = pack_main key16 packed_move value eval

    move_back : u16 (main / 2 ^ 16) ≡ packed_move
    move_back =
        omega
          (arith, pack_main_lem key16 packed_move value eval hk hm, to_u16-lt value, to_u16-lt eval)

    value_back : from_u16 (main / 2 ^ 32) ≡ value
    value_back =
        from_u16_cong (main / 2 ^ 32) (to_u16 value) (
          omega (
            arith,
            pack_main_lem key16 packed_move value eval hk hm,
            to_u16-lt value,
            to_u16-lt eval,
          ))
        ∙ from_u16-to_u16 value v1 v2

    eval_back : from_u16 (main / 2 ^ 48) ≡ eval
    eval_back =
        from_u16_cong (main / 2 ^ 48) (to_u16 eval) (
          omega (
            arith,
            pack_main_lem key16 packed_move value eval hk hm,
            to_u16-lt value,
            to_u16-lt eval,
          ))
        ∙ from_u16-to_u16 eval e1 e2
