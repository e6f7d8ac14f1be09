-- ===== src/Board/Piece.antt =====
-- crates/rfish-engine/src/board/types.rs: `Color`, `PieceType` and `Piece`. A panic is `none`; a
-- character is its byte.
pub mod Laws
use rfish.Prelude.{ℕ, ◌+◌, ◌-◌, ◌*◌, ◌/◌, ◌^◌, ◌&&◌, bit_and, bit_or, ltb, leb, ◌==◌, if◌then◌else◌}
use rfish.Prelude.{Bool, Option, none, some, List, [], ◌∷◌, get_or}

pub data Color : Type 0 where
  white black : Color

pub data PieceType : Type 0 where
  no_type pawn knight bishop rook queen king : PieceType

abbrev pub color_index : Color → ℕ
color_index white = 0
color_index black = 1

unfoldable pub color_from_index : ℕ → Option Color
color_from_index i = if i == 0 then some white else if i == 1 then some black else none

-- `!c`
abbrev pub opponent : Color → Color
opponent white = black
opponent black = white

abbrev pub type_index : PieceType → ℕ
type_index no_type = 0
type_index pawn = 1
type_index knight = 2
type_index bishop = 3
type_index rook = 4
type_index queen = 5
type_index king = 6

unfoldable pub type_from_index : ℕ → Option PieceType
type_from_index i =
    if i == 0
    then some no_type
    else if i == 1
    then some pawn
    else if i == 2
    then some knight
    else if i == 3
    then some bishop
    else if i == 4
    then some rook
    else if i == 5
    then some queen
    else if i == 6
    then some king
    else none

abbrev by_low3 : List PieceType
by_low3 = no_type ∷ pawn ∷ knight ∷ bishop ∷ rook ∷ queen ∷ king ∷ no_type ∷ []

unfoldable pub from_low3 : ℕ → PieceType
from_low3 bits = get_or by_low3 (bit_and bits 7) no_type

unfoldable pub type_to_char : PieceType → ℕ
type_to_char no_type = b' '
type_to_char pawn = b'P'
type_to_char knight = b'N'
type_to_char bishop = b'B'
type_to_char rook = b'R'
type_to_char queen = b'Q'
type_to_char king = b'K'

-- The standard library's `is_ascii_lowercase`, `is_ascii_uppercase` and the two conversions.
abbrev pub is_lower : ℕ → Bool
is_lower c = leb b'a' c && leb c b'z'

abbrev pub is_upper : ℕ → Bool
is_upper c = leb b'A' c && leb c b'Z'

abbrev pub to_upper : ℕ → ℕ
to_upper c = if is_lower c then c - 32 else c

abbrev pub to_lower : ℕ → ℕ
to_lower c = if is_upper c then c + 32 else c

unfoldable pub type_from_char : ℕ → Option PieceType
type_from_char c =
    let u = to_upper c in
    if u == b'P'
    then some pawn
    else if u == b'N'
    then some knight
    else if u == b'B'
    then some bishop
    else if u == b'R'
    then some rook
    else if u == b'Q'
    then some queen
    else if u == b'K'
    then some king
    else none

-- A piece is its byte, the colour above three bits of type.
abbrev pub Piece : Type 0
Piece = ℕ

abbrev pub no_piece : Piece
no_piece = 0

unfoldable pub new : Color → PieceType → Piece
new c pt = bit_or (color_index c * 2 ^ 3) (type_index pt)

unfoldable pub color : Piece → Option Color
unfolding color_from_index
color pc = color_from_index (pc / 2 ^ 3)

unfoldable pub piece_type : Piece → PieceType
unfolding from_low3
piece_type pc = from_low3 pc

abbrev pub is_none : Piece → Bool
is_none pc = pc == 0

-- The character in the case of the colour.
abbrev cased : Color → ℕ → ℕ
cased white c = c
cased black c = to_lower c

-- The colour of a piece outside the sixteen encodings panics.
unfoldable pub to_char : Piece → Option ℕ
unfolding color piece_type type_to_char
to_char pc =
    if is_none pc
    then some b' '
    else elim (color pc) [ none ↦ none | some c ↦ some (cased c (type_to_char (piece_type pc))) ]

unfoldable pub from_char : ℕ → Option Piece
unfolding type_from_char new
from_char c = elim (type_from_char c) [
  | none ↦ none
  | some pt ↦ some (new (if is_upper c then white else black) pt)
]
