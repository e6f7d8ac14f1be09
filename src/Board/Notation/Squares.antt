-- ===== src/Board/Notation/Squares.antt =====
-- What the rendering of a move tells of the move.
use rfish.Prelude.{
  ℕ, ◌/◌, ◌^◌, ◌<◌, ◌≡◌, ◌∙◌, refl, arith, ap, sym, Bool, true, false, ◌==◌, if◌then◌else◌,
}
use rfish.Prelude.{Bool-cases, inl, inr, [], ◌∷◌, ◌++◌}
use rfish.Prelude.Bits.{bit_and_mask}
use rfish.Board.Piece.{
  PieceType, type_to_char, to_lower, no_type, pawn, knight, bishop, rook, queen, king,
}
use rfish.Board.Square.{Square, display, rank}
use rfish.Board.Square.Laws.{file_lem}
use rfish.Board.Move.{Move, is_ok, from_square, to_square, promotion_type}
use rfish.Board.Notation.{Text, squares_text, promotes, promotion_text, render}

head : Text → ℕ
head [] = 0
head (c ∷ t) = c

tail : Text → Text
tail [] = []
tail (c ∷ t) = t

display-injective :
    (a b : Square)
    → a < 64
    → b < 64
    → (display a).0 ≡ (display b).0
    → (display a).1 ≡ (display b).1
    → a ≡ b
unfolding display rank
display-injective a b ha hb files ranks = omega (arith, file_lem a, file_lem b, files, ranks)

from_square_bound : (m : Move) → from_square m < 64
unfolding from_square
from_square_bound m = omega (arith, bit_and_mask 6 (m / 2 ^ 6))

to_square_bound : (m : Move) → to_square m < 64
unfolding to_square
to_square_bound m = omega (arith, bit_and_mask 6 m)

render_ok :
    (m : Move)
    → is_ok m ≡ true
    → render m ≡ squares_text (from_square m) (to_square m) ++ promotion_text m
unfolding is_ok render
render_ok m ok = elim (Bool-cases (m == 0)) [
  | inl zeroed ↦ absurd (ground (arith, ok, zeroed))
  | inr real ↦ elim (Bool-cases (m == 65)) [
    | inl nulled ↦ absurd (ground (arith, ok, nulled))
    | inr moving ↦ rw (real, moving) refl
  ]
]

-- The type that a lower-case letter stands for.
of_letter : ℕ → PieceType
of_letter c =
    if c == b'p'
    then pawn
    else if c == b'n'
    then knight
    else if c == b'b'
    then bishop
    else if c == b'r'
    then rook
    else if c == b'q'
    then queen
    else if c == b'k'
    then king
    else no_type

of_letter-to_lower : (pt : PieceType) → of_letter (to_lower (type_to_char pt)) ≡ pt
unfolding of_letter type_to_char
of_letter-to_lower no_type = refl
of_letter-to_lower pawn = refl
of_letter-to_lower knight = refl
of_letter-to_lower bishop = refl
of_letter-to_lower rook = refl
of_letter-to_lower queen = refl
of_letter-to_lower king = refl

letters_same :
    (a b : Bool) (x y : ℕ)
    → (if a then x ∷ [] else []) ≡ (if b then y ∷ [] else [])
    → (a ≡ b) × (a ≡ true → x ≡ y)
unfolding head
letters_same true true x y h = (refl, λ e. ap head h)
letters_same false false x y h = (refl, λ e. cc)
letters_same true false x y h = absurd (cc)
letters_same false true x y h = absurd (cc)

-- Two moves that are rendered alike have the same squares, and promote to the same type or not at all.
pub render-injective :
    (m n : Move)
    → is_ok m ≡ true
    → is_ok n ≡ true
    → render m ≡ render n
    → (from_square m ≡ from_square n)
      × (to_square m ≡ to_square n)
      × (promotes m ≡ promotes n)
      × (promotes m ≡ true → promotion_type m ≡ promotion_type n)
unfolding squares_text promotion_text head tail
render-injective m n ok_m ok_n same =
    let texts = sym (render_ok m ok_m) ∙ same ∙ render_ok n ok_n in
    let rest = ap (λ t. tail (tail (tail (tail t)))) texts in
    let (both, letters) = letters_same (promotes m) (promotes n) _ _ rest in
    (
      display-injective (from_square m) (from_square n) (from_square_bound m) (from_square_bound n)
          (ap head texts) (ap (λ t. head (tail t)) texts),
      display-injective (to_square m) (to_square n) (to_square_bound m) (to_square_bound n)
          (ap (λ t. head (tail (tail t))) texts) (ap (λ t. head (tail (tail (tail t)))) texts),
      both,
      (λ promoting.
          sym (of_letter-to_lower (promotion_type m))
          ∙ ap of_letter (letters promoting)
          ∙ of_letter-to_lower (promotion_type n)),
    )
