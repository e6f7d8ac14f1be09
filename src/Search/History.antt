-- ===== src/Search/History.antt =====
-- crates/rfish-engine/src/search/history.rs: the gravity rule and the tables that it updates. A table
-- is a list of rows of `i16` entries, held as integers; an index past the end is a panic, `none`.
pub mod Gravity
pub mod Tables
pub mod Keys
use rfish.Prelude.{
  ℕ, ◌+◌, ◌-◌, ◌*◌, ◌%◌, ◌^◌, Bool, if◌then◌else◌, bit_and, Option, none, some, List, map,
}
use rfish.Prelude.{get_elem?, set, replicate}
use rfish.Prelude.Int.{ℤ, pos, neg, ◌+ℤ◌, ◌-ℤ◌, ◌*ℤ◌, quot, abs, ltb_ℤ, to_u16, from_u16}
use rfish.Board.Piece.{Color, color_index, Piece, PieceType, type_index}
use rfish.Board.Square.{Square}
use rfish.Board.Value.{Ply}

abbrev pub main_history_limit : ℕ
main_history_limit = 7183

abbrev pub capture_history_limit : ℕ
capture_history_limit = 10692

abbrev pub continuation_limit : ℕ
continuation_limit = 30000

abbrev pub pawn_history_limit : ℕ
pawn_history_limit = 8192

abbrev pub correction_limit : ℕ
correction_limit = 1024

abbrev pub pawn_history_size : ℕ
pawn_history_size = 8192

abbrev pub Bonus : Type 0
Bonus = ℤ

abbrev pub clamp : ℤ → ℤ → ℤ → ℤ
clamp lo hi v = if ltb_ℤ v lo then lo else if ltb_ℤ hi v then hi else v

unfoldable pub apply_gravity : ℕ → ℤ → Bonus → ℤ
unfolding neg ◌+ℤ◌ ◌-ℤ◌ ◌*ℤ◌ quot to_u16 from_u16
apply_gravity limit v bonus =
    let b = clamp (neg (pos limit)) (pos limit) bonus in
    from_u16 (to_u16 (v +ℤ b -ℤ quot (v *ℤ abs b) limit))

-- `&mut xs[i]`, changed by a step that may panic itself.
unfoldable pub modify_at {ℓ} : {A : Type ℓ} → List A → ℕ → (A → Option A) → Option (List A)
modify_at xs i f = elim (get_elem? xs i) [
  | none ↦ none
  | some x ↦ elim (f x) [ none ↦ none | some y ↦ some (set xs i y) ]
]

abbrev pub Row : Type 0
Row = List ℤ

abbrev pub Plane : Type 0
Plane = List Row

abbrev pub Planes : Type 0
Planes = List Plane

abbrev pub get_row : Row → ℕ → Option ℤ
get_row t i = get_elem? t i

abbrev pub get_plane : Plane → ℕ → ℕ → Option ℤ
get_plane t i j = elim (get_elem? t i) [ none ↦ none | some row ↦ get_row row j ]

abbrev pub get_planes : Planes → ℕ → ℕ → ℕ → Option ℤ
get_planes t i j k = elim (get_elem? t i) [ none ↦ none | some plane ↦ get_plane plane j k ]

unfoldable pub update_row : ℕ → Row → ℕ → Bonus → Option Row
unfolding apply_gravity modify_at
update_row limit t i bonus = modify_at t i (λ v. some (apply_gravity limit v bonus))

unfoldable pub update_plane : ℕ → Plane → ℕ → ℕ → Bonus → Option Plane
unfolding update_row
update_plane limit t i j bonus = modify_at t i (λ row. update_row limit row j bonus)

unfoldable pub update_planes : ℕ → Planes → ℕ → ℕ → ℕ → Bonus → Option Planes
unfolding update_plane
update_planes limit t i j k bonus = modify_at t i (λ plane. update_plane limit plane j k bonus)

abbrev pub fill_row : ℤ → Row → Row
fill_row v row = map (λ x. v) row

abbrev pub fill_plane : ℤ → Plane → Plane
fill_plane v t = map (fill_row v) t

abbrev pub fill_planes : ℤ → Planes → Planes
fill_planes v t = map (fill_plane v) t

-- `row.fill(v)` reaches every entry; `decay` rescales every entry, for a positive denominator.
unfoldable pub decay : Plane → ℤ → ℕ → Plane
unfolding ◌*ℤ◌ quot to_u16 from_u16
decay t num den = map (map (λ (x : ℤ). from_u16 (to_u16 (quot (x *ℤ num) den)))) t

-- The butterfly table: a colour, and the raw move.
unfoldable pub butterfly_get : Plane → Color → ℕ → Option ℤ
butterfly_get t c mv = get_plane t (color_index c) mv

unfoldable pub butterfly_update : Plane → Color → ℕ → Bonus → Option Plane
unfolding update_plane
butterfly_update t c mv bonus = update_plane main_history_limit t (color_index c) mv bonus

-- The low-ply table: a ply, and the raw move.
unfoldable pub low_ply_get : Plane → Ply → ℕ → Option ℤ
low_ply_get t ply mv = get_plane t ply mv

unfoldable pub low_ply_update : Plane → Ply → ℕ → Bonus → Option Plane
unfolding update_plane
low_ply_update t ply mv bonus = update_plane main_history_limit t ply mv bonus

-- The capture table: the moving piece, its destination, and what it took.
unfoldable pub capture_get : Planes → Piece → Square → PieceType → Option ℤ
capture_get t pc to captured = get_planes t pc to (type_index captured)

unfoldable pub capture_update : Planes → Piece → Square → PieceType → Bonus → Option Planes
unfolding update_planes
capture_update t pc to captured bonus =
    update_planes capture_history_limit t pc to (type_index captured) bonus

-- A plane by the piece and its destination, at either of its two clamps.
unfoldable pub piece_to_get : Plane → Piece → Square → Option ℤ
piece_to_get t pc to = get_plane t pc to

unfoldable pub piece_to_update : Plane → Piece → Square → Bonus → Option Plane
unfolding update_plane
piece_to_update t pc to bonus = update_plane continuation_limit t pc to bonus

unfoldable pub piece_to_update_correction : Plane → Piece → Square → Bonus → Option Plane
unfolding update_plane
piece_to_update_correction t pc to bonus = update_plane correction_limit t pc to bonus

-- The continuation tables, by the flat index of the plane that the parent move selects.
pub data InCheck : Type 0 where
  no_check in_check : InCheck

pub data WasCapture : Type 0 where
  no_capture capture : WasCapture

abbrev pub in_check_index : InCheck → ℕ
in_check_index no_check = 0
in_check_index in_check = 1

abbrev pub capture_index : WasCapture → ℕ
capture_index no_capture = 0
capture_index capture = 1

abbrev pub u32 : ℕ → ℕ
u32 n = n % 2 ^ 32

unfoldable pub cont_plane_index : InCheck → WasCapture → Piece → Square → ℕ
cont_plane_index check taken pc to =
    let quadrant = in_check_index check * 2 + capture_index taken in
    u32 ((quadrant * 16 + pc) * 64 + to)

unfoldable pub corr_plane_index : Piece → Square → ℕ
corr_plane_index pc to = u32 (pc * 64 + to)

unfoldable pub continuation_update : Planes → ℕ → Piece → Square → Bonus → Option Planes
unfolding update_planes
continuation_update t idx pc to bonus = update_planes continuation_limit t idx pc to bonus

unfoldable pub correction_update : Planes → ℕ → Piece → Square → Bonus → Option Planes
unfolding update_planes
correction_update t idx pc to bonus = update_planes correction_limit t idx pc to bonus

-- The pawn-structure table, by the row that a pawn key selects.
unfoldable pub pawn_row : ℕ → ℕ
pawn_row pawn_key = bit_and pawn_key (pawn_history_size - 1)

unfoldable pub pawn_update : Planes → ℕ → Piece → Square → Bonus → Option Planes
unfolding update_planes
pawn_update t row pc to bonus = update_planes pawn_history_limit t row pc to bonus
