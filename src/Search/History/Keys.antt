-- ===== src/Search/History/Keys.antt =====
-- The tables by the keys that the search has: the colour, the piece, the square, the pawn key.
use rfish.Prelude.{ℕ, suc, ◌*◌, ◌/◌, ◌≤◌, ◌<◌, ◌≡◌, ◌≢◌, ◌∙◌, arith, refl, ◌⊎◌, inl, inr}
use rfish.Prelude.{some, All-map-All, length-map, map}
use rfish.Prelude.Int.{ℤ, pos, negsuc, abs_ℕ, quot, ◌*ℤ◌, to_u16, from_u16}
use rfish.Prelude.Bits.{bit_and_mask}
use native.Mathlib.Nat.{mul-le-mul_left, mul_comm, div-le_of_le-mul}
use rfish.Board.Piece.{
  Color, white, black, color_index, Piece, PieceType, no_type, pawn, knight, bishop, rook, queen,
  king, type_index,
}
use rfish.Board.Square.{Square}
use rfish.Search.History.{Bonus, Row, Plane, Planes, apply_gravity, get_planes, decay}
use rfish.Search.History.{butterfly_get, butterfly_update, main_history_limit}
use rfish.Search.History.{capture_get, capture_update, capture_history_limit}
use rfish.Search.History.{continuation_update, continuation_limit, cont_plane_index}
use rfish.Search.History.{
  InCheck, WasCapture, no_check, in_check, no_capture, capture, in_check_index, capture_index,
}
use rfish.Search.History.{pawn_update, pawn_row, pawn_history_limit, pawn_history_size}
use rfish.Search.History.Gravity.{narrow}
use rfish.Search.History.Tables.{IsRow, IsPlane, IsPlanes, plane_step, planes_step}

color_index_injective : (c d : Color) → color_index c ≡ color_index d → c ≡ d
color_index_injective white white e = refl
color_index_injective white black e = absurd (omega arith)
color_index_injective black white e = absurd (omega arith)
color_index_injective black black e = refl

color_index-lt : (c : Color) → color_index c < 2
color_index-lt white = omega arith
color_index-lt black = omega arith

type_index-lt : (pt : PieceType) → type_index pt < 8
type_index-lt no_type = omega arith
type_index-lt pawn = omega arith
type_index-lt knight = omega arith
type_index-lt bishop = omega arith
type_index-lt rook = omega arith
type_index-lt queen = omega arith
type_index-lt king = omega arith

type_index_injective : (a b : PieceType) → type_index a ≡ type_index b → a ≡ b
type_index_injective a b e = ground arith

in_check_index-lt : (c : InCheck) → in_check_index c < 2
in_check_index-lt no_check = omega arith
in_check_index-lt in_check = omega arith

capture_index-lt : (c : WasCapture) → capture_index c < 2
capture_index-lt no_capture = omega arith
capture_index-lt capture = omega arith

-- An update of the butterfly table never panics, and keeps the table's shape and limit; the colour's
-- entry of the raw move obeys the gravity rule, and every other entry stays.
pub butterfly_update_lem :
    (t : Plane) (c : Color) (mv : ℕ) (bonus : Bonus)
    → IsPlane main_history_limit 2 65536 t
    → (d : Color) (other : ℕ) → mv < 65536
    → (d ≢ c) ⊎ (other ≢ mv)
    → (u : Plane) × (butterfly_update t c mv bonus ≡ some u)
      × IsPlane main_history_limit 2 65536 u
      × ((v : ℤ) × (butterfly_get t c mv ≡ some v)
          × (butterfly_get u c mv ≡ some (apply_gravity main_history_limit v bonus)))
      × (butterfly_get u d other ≡ butterfly_get t d other)
unfolding butterfly_update butterfly_get
butterfly_update_lem t c mv bonus shape d other low away =
    let r =
      plane_step main_history_limit 2 65536 t (color_index c) mv bonus (omega arith) (omega arith)
        shape (color_index-lt c) low in
    (
      r.0,
      r.1,
      r.2,
      r.3,
      r.4 (color_index d) other
          (elim away [ inl ne ↦ inl (λ e. ne (color_index_injective d c e)) | inr ne ↦ inr ne ]),
    )

cont_plane_index-lt :
    (check : InCheck) (taken : WasCapture) (pc : Piece) (to : Square)
    → pc < 16
    → to < 64
    → cont_plane_index check taken pc to < 4096
unfolding cont_plane_index
cont_plane_index-lt check taken pc to p q =
    ground (arith, in_check_index-lt check, capture_index-lt taken)

in_check_index_injective : (a b : InCheck) → in_check_index a ≡ in_check_index b → a ≡ b
in_check_index_injective a b e = ground arith

capture_index_injective : (a b : WasCapture) → capture_index a ≡ capture_index b → a ≡ b
capture_index_injective a b e = ground arith

-- Two parent moves by real pieces to real squares share a continuation plane only if they agree on
-- the check, the capture, the piece and the destination, and that plane is one of the table's 4096.
pub cont_plane_index_injective :
    (check check2 : InCheck) (taken taken2 : WasCapture) (pc pc2 : Piece) (to to2 : Square)
    → pc < 16
    → pc2 < 16
    → to < 64
    → to2 < 64
    → cont_plane_index check taken pc to ≡ cont_plane_index check2 taken2 pc2 to2
    → (cont_plane_index check taken pc to < 4096)
      × (check ≡ check2)
      × (taken ≡ taken2)
      × (pc ≡ pc2)
      × (to ≡ to2)
unfolding cont_plane_index
cont_plane_index_injective check check2 taken taken2 pc pc2 to to2 p p2 q q2 same =
    let a = in_check_index-lt check in
    let b = in_check_index-lt check2 in
    let c = capture_index-lt taken in
    let d = capture_index-lt taken2 in
    (
      cont_plane_index-lt check taken pc to p q,
      in_check_index_injective check check2 (ground arith),
      capture_index_injective taken taken2 (ground arith),
      ground arith,
      ground arith,
    )

-- Whatever the pawn key, an update of the pawn-structure table never panics, keeps the table's shape
-- and limit, changes the entry of the key's row by the gravity rule, and leaves the others.
pub pawn_update_lem :
    (t : Planes) (key : ℕ) (pc : Piece) (to : Square) (bonus : Bonus)
    → IsPlanes pawn_history_limit pawn_history_size 16 64 t
    → (x y z : ℕ) → pc < 16
    → to < 64
    → (x ≢ pawn_row key) ⊎ ((y ≢ pc) ⊎ (z ≢ to))
    → (u : Planes) × (pawn_update t (pawn_row key) pc to bonus ≡ some u)
      × IsPlanes pawn_history_limit pawn_history_size 16 64 u
      × ((v : ℤ) × (get_planes t (pawn_row key) pc to ≡ some v)
          × (get_planes u (pawn_row key) pc to ≡ some (apply_gravity pawn_history_limit v bonus)))
      × (get_planes u x y z ≡ get_planes t x y z)
unfolding pawn_update pawn_row
pawn_update_lem t key pc to bonus shape x y z low_pc low_to away =
    let in_table : pawn_row key < pawn_history_size = omega (arith, bit_and_mask 13 key) in
    let r =
      planes_step pawn_history_limit pawn_history_size 16 64 t (pawn_row key) pc to bonus
        (omega arith) (omega arith) shape in_table low_pc low_to in
    (r.0, r.1, r.2, r.3, r.4 x y z away)

ratio : (d a b : ℕ) → b ≤ d → a * b / d ≤ a
ratio d a b p = div-le_of_le-mul d (rw (mul_comm d a) (mul-le-mul_left a p))

scale_bounds :
    (limit den : ℕ) (num x : ℤ)
    → 0 < den
    → abs_ℕ num ≤ den
    → abs_ℕ x ≤ limit
    → abs_ℕ (quot (x *ℤ num) den) ≤ limit
unfolding quot ◌*ℤ◌
scale_bounds limit den (pos m) (pos n) some_den p q = ground (arith, ratio den n m (omega arith))
scale_bounds limit den (pos m) (negsuc n) some_den p q =
    ground (arith, ratio den (suc n) m (omega arith))
scale_bounds limit den (negsuc m) (pos n) some_den p q =
    ground (arith, ratio den n (suc m) (omega arith))
scale_bounds limit den (negsuc m) (negsuc n) some_den p q =
    ground (arith, ratio den (suc n) (suc m) (omega arith))

-- A decay by a factor of at most one keeps the shape of a table and its entries within a limit that
-- sixteen bits hold.
pub decay-IsPlane :
    (limit m k den : ℕ) (num : ℤ) (t : Plane)
    → limit ≤ 32767
    → 0 < den
    → abs_ℕ num ≤ den
    → IsPlane limit m k t
    → IsPlane limit m k (decay t num den)
unfolding decay
decay-IsPlane limit m k den num t small some_den p shape =
    let scaled = λ (x : ℤ). from_u16 (to_u16 (quot (x *ℤ num) den)) in
    let entry : (x : ℤ) → abs_ℕ x ≤ limit → abs_ℕ (scaled x) ≤ limit = λ x h.
      let inside = scale_bounds limit den num x some_den p h in
      rw (narrow (quot (x *ℤ num) den) (omega arith)) inside in
    let row : (r : Row) → IsRow limit k r → IsRow limit k (map scaled r) = λ r h.
      (length-map scaled r ∙ h.0, All-map-All (λ (v : ℤ). abs_ℕ v ≤ limit) scaled entry r h.1) in
    (length-map (map scaled) t ∙ shape.0, All-map-All (IsRow limit k) (map scaled) row t shape.1)

-- An update of the capture table never panics, and keeps the table's shape and limit; the entry of the
-- piece, its destination and the captured type obeys the gravity rule, and every other entry stays.
pub capture_update_lem :
    (t : Planes) (pc : Piece) (to : Square) (captured : PieceType) (bonus : Bonus)
    → IsPlanes capture_history_limit 16 64 8 t
    → (pc2 : Piece) (to2 : Square) (taken : PieceType) → pc < 16
    → to < 64
    → (pc2 ≢ pc) ⊎ ((to2 ≢ to) ⊎ (taken ≢ captured))
    → (u : Planes) × (capture_update t pc to captured bonus ≡ some u)
      × IsPlanes capture_history_limit 16 64 8 u
      × ((v : ℤ) × (capture_get t pc to captured ≡ some v)
          × (capture_get u pc to captured ≡ some (apply_gravity capture_history_limit v bonus)))
      × (capture_get u pc2 to2 taken ≡ capture_get t pc2 to2 taken)
unfolding capture_update capture_get
capture_update_lem t pc to captured bonus shape pc2 to2 taken low_pc low_to away =
    let r =
      planes_step capture_history_limit 16 64 8 t pc to (type_index captured) bonus (omega arith)
        (omega arith) shape low_pc low_to (type_index-lt captured) in
    (
      r.0,
      r.1,
      r.2,
      r.3,
      r.4 pc2 to2 (type_index taken) (elim away [
        | inl ne ↦ inl ne
        | inr others ↦ inr (elim others [
          | inl ne ↦ inl ne
          | inr ne ↦ inr (λ e. ne (type_index_injective taken captured e))
        ])
      ]),
    )

-- An update of the continuation table at the plane of a parent move never panics, and keeps the table's
-- shape and limit; the entry of the follow-up obeys the gravity rule, and the entries of every other
-- follow-up and plane stay.
pub continuation_update_lem :
    (t : Planes) (check : InCheck) (taken : WasCapture) (parent pc : Piece) (from to : Square)
    (bonus : Bonus)
    → IsPlanes continuation_limit 4096 16 64 t
    → (x y z : ℕ) → parent < 16
    → from < 64
    → pc < 16
    → to < 64
    → (x ≢ cont_plane_index check taken parent from) ⊎ ((y ≢ pc) ⊎ (z ≢ to))
    → let idx = cont_plane_index check taken parent from in
      (u : Planes) × (continuation_update t idx pc to bonus ≡ some u)
      × IsPlanes continuation_limit 4096 16 64 u
      × ((v : ℤ) × (get_planes t idx pc to ≡ some v)
          × (get_planes u idx pc to ≡ some (apply_gravity continuation_limit v bonus)))
      × (get_planes u x y z ≡ get_planes t x y z)
unfolding continuation_update
continuation_update_lem t check taken parent pc from to bonus shape x y z p q low_pc low_to away =
    let idx = cont_plane_index check taken parent from in
    let in_table = cont_plane_index-lt check taken parent from p q in
    let r =
      planes_step continuation_limit 4096 16 64 t idx pc to bonus (omega arith) (omega arith) shape
        in_table low_pc low_to in
    (r.0, r.1, r.2, r.3, r.4 x y z away)
