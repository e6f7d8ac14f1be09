-- ===== src/Board/Castling/Laws.antt =====
-- Rights as sets of four, one bit each.
use rfish.Prelude.{◌<◌, ◌≡◌, refl, sym, arith, Bool, true, false, ◌&&◌, ◌||◌, not}
use rfish.Prelude.{all_below, all_below_sound}
use rfish.Board.Piece.{Color, white, black, opponent}
use rfish.Board.Castling.{CastlingRights, for_color, king_side, queen_side, contains, union}
use rfish.Board.Castling.{without, intersect, no_rights, any}

agree : Bool → Bool → Bool
agree true b = b
agree false b = not b

-- Membership of one right in the three combinations of two sets.
combined : CastlingRights → CastlingRights → CastlingRights → Bool
combined r a b =
    agree (contains (union a b) r) (contains a r || contains b r)
    && agree (contains (intersect a b) r) (contains a r && contains b r)
    && agree (contains (without a b) r) (contains a r && not (contains b r))

abbrev combined_everywhere : CastlingRights → Bool
combined_everywhere r = all_below 16 (λ a. all_below 16 (combined r a))

combined_table :
    (c : Color) → (combined_everywhere (king_side c) && combined_everywhere (queen_side c)) ≡ true
unfolding all_below combined agree contains union intersect without king_side queen_side
combined_table white = refl
combined_table black = refl

abbrev pub Combines : CastlingRights → CastlingRights → CastlingRights → Type 0
Combines r a b =
    (contains (union a b) r ≡ (contains a r || contains b r))
    × (contains (intersect a b) r ≡ (contains a r && contains b r))
    × (contains (without a b) r ≡ (contains a r && not (contains b r)))

agree_sound : (x y : Bool) → agree x y ≡ true → x ≡ y
unfolding agree
agree_sound true y h = sym h
agree_sound false true h = h
agree_sound false false h = refl

combined_sound :
    (r a b : CastlingRights) → a < 16 → b < 16 → combined_everywhere r ≡ true → Combines r a b
unfolding combined
combined_sound r a b ha hb h =
    let row = all_below_sound 16 (λ x. all_below 16 (combined r x)) a h ha in
    let cell = all_below_sound 16 (combined r a) b row hb in
    ground (
      arith,
      agree_sound (contains (union a b) r) (contains a r || contains b r),
      agree_sound (contains (intersect a b) r) (contains a r && contains b r),
      agree_sound (contains (without a b) r) (contains a r && not (contains b r)),
    )

-- Union, intersection and difference of two nibbles hold each of a colour's two rights exactly when
-- either set, both sets, or the first set alone hold it.
pub contains_combined :
    (c : Color) (a b : CastlingRights)
    → a < 16
    → b < 16
    → Combines (king_side c) a b × Combines (queen_side c) a b
contains_combined c a b ha hb =
    let checked = combined_table c in
    (
      combined_sound (king_side c) a b ha hb (ground arith),
      combined_sound (queen_side c) a b ha hb (ground arith),
    )

-- A colour's rights are its two sides, the colours share none, and together they are all four.
pub for_color_sides :
    (c : Color)
    → (for_color c ≡ union (king_side c) (queen_side c))
      × (intersect (for_color c) (for_color (opponent c)) ≡ no_rights)
      × (union (for_color c) (for_color (opponent c)) ≡ any)
unfolding union king_side queen_side intersect
for_color_sides white = (refl, refl, refl)
for_color_sides black = (refl, refl, refl)
