-- ===== src/Board/Move/Encoding.antt =====
-- The sixteen bits of a move: packing and unpacking are inverse.
use rfish.Prelude.{ℕ, zero, suc, ◌+◌, ◌-◌, ◌*◌, ◌/◌, ◌%◌, ◌^◌, ◌≤◌, ◌<◌, ◌≡◌, ◌≢◌, refl, arith}
use rfish.Prelude.{bit_or, true}
use rfish.Prelude.Bits.{bit_or_disjoint, bit_and_mask}
use native.Mathlib.Nat.{mod-eq_of_lt}
use rfish.Board.Piece.{PieceType, no_type, pawn, knight, king, type_index}
use rfish.Board.Piece.{from_low3}
use rfish.Board.Square.{Square}
use rfish.Board.Move.{MoveType, normal, move_type_index, Move}
use rfish.Board.Move.{new, typed, from_square, to_square, from_to, move_type, promotion_type, is_ok}

-- The pieces that a pawn may become.
abbrev pub IsPromotion : PieceType → Type 0
IsPromotion pt = (2 ≤ type_index pt) × (type_index pt ≤ 5)

move_type_index-lt : (ty : MoveType) → move_type_index ty < 4
move_type_index-lt normal = omega arith
move_type_index-lt _ = omega arith

-- Fields that fit their bits are joined by sums.
pack_as_sum :
    (t p from to : ℕ)
    → t < 4
    → p < 4
    → from < 64
    → to < 64
    → bit_or (bit_or (bit_or (t * 2 ^ 14) (p * 2 ^ 12)) (from * 2 ^ 6)) to
      ≡ t * 16384 + p * 4096 + from * 64 + to
pack_as_sum t p from to ht hp hf hto = ground (
  arith,
  bit_or_disjoint 14 t (p * 2 ^ 12),
  bit_or_disjoint 12 (t * 4 + p) (from * 2 ^ 6),
  bit_or_disjoint 6 (t * 256 + p * 64 + from) to,
)

typed_as_sum :
    (ty : MoveType) (from to : Square) (promo : PieceType)
    → from < 64
    → to < 64
    → IsPromotion promo
    → typed ty from to promo
      ≡ move_type_index ty * 16384 + (type_index promo - 2) * 4096 + from * 64 + to
unfolding typed
typed_as_sum ty from to promo hf ht hp =
    let fits = move_type_index-lt ty in
    rw
      (
        mod-eq_of_lt {n = move_type_index ty * 16384} {m = 65536} (omega arith),
        mod-eq_of_lt {n = from * 64} {m = 65536} (omega arith),
        promo_fits,
      )
      (pack_as_sum (move_type_index ty) (type_index promo - 2) from to fits (omega arith) hf ht)
  where
    promo_fits :
        (type_index promo + 65536 - 2) % 65536 * 4096 % 65536 ≡ (type_index promo - 2) * 4096
    promo_fits = omega arith

from_square_lem : (m : Move) → from_square m ≡ m / 64 % 64
unfolding from_square
from_square_lem m = bit_and_mask 6 (m / 2 ^ 6)

to_square_lem : (m : Move) → to_square m ≡ m % 64
unfolding to_square
to_square_lem m = bit_and_mask 6 m

from_to_lem : (m : Move) → from_to m ≡ m % 4096
unfolding from_to
from_to_lem m = bit_and_mask 12 m

move_type_lem : (m : Move) (ty : MoveType) → m / 16384 % 4 ≡ move_type_index ty → move_type m ≡ ty
unfolding move_type
move_type_lem m ty h = ground (arith, bit_and_mask 2 (m / 2 ^ 14))

move_type_index_lem : (m : Move) → move_type_index (move_type m) ≡ m / 16384 % 4
unfolding move_type
move_type_index_lem m = ground (arith, bit_and_mask 2 (m / 2 ^ 14))

promotion_type_lem :
    (m : Move) (promo : PieceType)
    → IsPromotion promo
    → m / 4096 % 4 ≡ type_index promo - 2
    → promotion_type m ≡ promo
unfolding promotion_type from_low3
promotion_type_lem m promo hp h = rw (bit_and_mask 2 (m / 2 ^ 12), h) (by_type promo hp)
  where
    by_type : (pt : PieceType) → IsPromotion pt → from_low3 (type_index pt - 2 + 2) ≡ pt
    by_type no_type h = absurd (omega arith)
    by_type pawn h = absurd (omega arith)
    by_type king h = absurd (omega arith)
    by_type _ h = refl

-- A typed move of squares on the board and a promotion piece gives back the four fields that it was
-- packed from, and fits sixteen bits.
pub typed_fields :
    (ty : MoveType) (from to : Square) (promo : PieceType)
    → from < 64
    → to < 64
    → IsPromotion promo
    → let m = typed ty from to promo in
      (m < 65536)
      × (from_square m ≡ from)
      × (to_square m ≡ to)
      × (move_type m ≡ ty)
      × (promotion_type m ≡ promo)
typed_fields ty from to promo hf ht hp =
    let m = typed ty from to promo in
    let fits = move_type_index-lt ty in
    let sum = typed_as_sum ty from to promo hf ht hp in
    (
      omega arith,
      omega (arith, from_square_lem m),
      omega (arith, to_square_lem m),
      move_type_lem m ty (omega arith),
      promotion_type_lem m promo hp (omega arith),
    )

from_low3_promotion : (x : ℕ) → x < 4 → type_index (from_low3 (x + 2)) ≡ x + 2
unfolding from_low3
from_low3_promotion zero h = refl
from_low3_promotion (suc zero) h = refl
from_low3_promotion (suc (suc zero)) h = refl
from_low3_promotion (suc (suc (suc zero))) h = refl
from_low3_promotion (suc (suc (suc (suc x)))) h = absurd (omega arith)

promotion_type_index : (m : Move) → type_index (promotion_type m) ≡ m / 4096 % 4 + 2
unfolding promotion_type
promotion_type_index m =
    rw (bit_and_mask 2 (m / 2 ^ 12)) (from_low3_promotion (m / 4096 % 4) (omega arith))

-- Every sixteen-bit word is the typed move of its fields.
pub typed_of_fields :
    (m : Move)
    → m < 65536
    → typed (move_type m) (from_square m) (to_square m) (promotion_type m) ≡ m
typed_of_fields m h =
    let code = promotion_type_index m in
    let from_lem = from_square_lem m in
    let to_lem = to_square_lem m in
    omega (
      arith,
      move_type_index_lem m,
      typed_as_sum (move_type m) (from_square m) (to_square m) (promotion_type m) (omega arith)
          (omega arith) (omega arith, omega arith),
    )

-- A plain move is the typed move with no type and the first promotion code.
pub new-eq-typed :
    (from to : Square) → from < 64 → to < 64 → new from to ≡ typed normal from to knight
unfolding new
new-eq-typed from to hf ht =
    ground (arith, bit_or_disjoint 6 from to, typed_as_sum normal from to knight)

-- A packed move between different squares is neither of the two special encodings.
pub typed-is_ok :
    (ty : MoveType) (from to : Square) (promo : PieceType)
    → from < 64
    → to < 64
    → IsPromotion promo
    → from ≢ to
    → is_ok (typed ty from to promo) ≡ true
unfolding is_ok
typed-is_ok ty from to promo hf ht hp ne =
    ground (arith, typed_as_sum ty from to promo, move_type_index-lt ty)
