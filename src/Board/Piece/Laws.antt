-- ===== src/Board/Piece/Laws.antt =====
-- The packing of a piece and its FEN character.
use rfish.Prelude.{ℕ, ◌<◌, ◌≡◌, refl, ◌≢◌, arith, Bool, true, false, Option, none, some, ◌==◌}
use rfish.Prelude.{all_below, all_below_sound}
use rfish.Board.Piece.{Color, PieceType, no_type, pawn, knight, bishop, rook, queen, king}
use rfish.Board.Piece.{white, black, new, color, piece_type, to_char, from_char}

-- A piece packed from a colour and a type is below 16 and gives both back.
pub new_fields :
    (c : Color) (pt : PieceType)
    → (new c pt < 16) × (color (new c pt) ≡ some c) × (piece_type (new c pt) ≡ pt)
unfolding new color piece_type
new_fields white no_type = (omega arith, refl, refl)
new_fields black no_type = (omega arith, refl, refl)
new_fields white _ = (omega arith, refl, refl)
new_fields black _ = (omega arith, refl, refl)

-- Whether a byte that reads as a piece is the one the piece prints.
abbrev prints : ℕ → Option ℕ → Bool
prints c none = true
prints c (some p) = elim (to_char p) [ none ↦ false | some d ↦ d == c ]

prints_table : all_below 256 (λ c. prints c (from_char c)) ≡ true
unfolding all_below to_char from_char
prints_table = refl

prints_sound : (c p : ℕ) → prints c (some p) ≡ true → to_char p ≡ some c
prints_sound c p h = ground arith

-- Every byte that reads as a piece is the byte that this piece prints.
pub to_char-from_char : (c p : ℕ) → c < 256 → from_char c ≡ some p → to_char p ≡ some c
to_char-from_char c p h e =
    let checked = all_below_sound 256 (λ x. prints x (from_char x)) c prints_table h in
    prints_sound c p (rw e at checked)

-- Every real piece prints a character that reads as this piece.
pub from_char-to_char :
    (c : Color) (pt : PieceType)
    → pt ≢ no_type
    → (ch : ℕ) × (to_char (new c pt) ≡ some ch) × (from_char ch ≡ some (new c pt))
unfolding to_char from_char
from_char-to_char c no_type real = absurd (real refl)
from_char-to_char white pawn real = (b'P', refl, refl)
from_char-to_char white knight real = (b'N', refl, refl)
from_char-to_char white bishop real = (b'B', refl, refl)
from_char-to_char white rook real = (b'R', refl, refl)
from_char-to_char white queen real = (b'Q', refl, refl)
from_char-to_char white king real = (b'K', refl, refl)
from_char-to_char black pawn real = (b'p', refl, refl)
from_char-to_char black knight real = (b'n', refl, refl)
from_char-to_char black bishop real = (b'b', refl, refl)
from_char-to_char black rook real = (b'r', refl, refl)
from_char-to_char black queen real = (b'q', refl, refl)
from_char-to_char black king real = (b'k', refl, refl)
