-- ===== src/Board/NotationExamples.antt =====
-- The theorems of the notation of moves at a position with two kings.
use rfish.Prelude.{◌≡◌, ◌∙◌, refl, arith, ap, sym, true, false, ◌==◌, Bool-cases, inl, inr, ==_iff}
use rfish.Prelude.{some, List, [], ◌∷◌}
use rfish.Board.Piece.{white, piece_type}
use rfish.Board.Square.{no_square}
use rfish.Board.Move.{Move, from_square, to_square, promotion_type, is_ok}
use rfish.Board.Attacks.{walked}
use rfish.Board.Placement.{blank, put_piece, king_square}
use rfish.Board.Position.{Position, blank_state}
use rfish.Board.MoveGen.Legal.{generate_into, generate_legal}
use rfish.Board.Legality.{contains_move}
use rfish.Board.Notation.{promotes, render, move_to_uci, is_named, parse_uci_move}
use rfish.Board.Notation.RoundTrip.{parse_uci_move-move_to_uci}
use rfish.Board.Notation.Squares.{render-injective}

-- White: king a1. Black: king h8.
abbrev bare : Position
bare = record {
  placement = put_piece 14 63 (put_piece 6 0 blank);
  castling_rights_mask = λ sq. 0;
  castling_rook_square = λ cr. no_square;
  castling_path = λ cr. 0;
  st = blank_state;
  prev = [];
  game_ply = 0;
  side_to_move = white;
  chess960 = false;
}

-- The king's three steps: to b1, a2 and b2.
abbrev steps : List Move
steps = 1 ∷ 8 ∷ 9 ∷ []

steps_listed : generate_legal walked bare ≡ some steps
unfolding generate_legal generate_into put_piece king_square piece_type
steps_listed = refl

others_named :
    (is_named bare (move_to_uci bare 9) 1 ≡ false) × (is_named bare (move_to_uci bare 9) 8 ≡ false)
unfolding is_named move_to_uci
others_named = (refl, refl)

is_other :
    (a x : Move)
    → (a == x) ≡ true
    → is_named bare (move_to_uci bare 9) a ≡ false
    → is_named bare (move_to_uci bare 9) x ≡ false
is_other a x same other =
    sym (ap (is_named bare (move_to_uci bare 9)) ((==_iff a x).0 same)) ∙ other

only_one :
    (x : Move) → contains_move steps x ≡ true → is_named bare (move_to_uci bare 9) x ≡ true → x ≡ 9
unfolding contains_move
only_one x listed named = elim (Bool-cases (1 == x)) [
  | inl e ↦ absurd (cc (is_other 1 x e others_named.0, named))
  | inr not_first ↦ elim (Bool-cases (8 == x)) [
    | inl e ↦ absurd (cc (is_other 8 x e others_named.1, named))
    | inr not_second ↦ ground (arith, listed, not_first, not_second)
  ]
]

parse_uci_move-move_to_uci_example : parse_uci_move walked bare (move_to_uci bare 9) ≡ some (some 9)
unfolding contains_move
parse_uci_move-move_to_uci_example =
    parse_uci_move-move_to_uci walked bare 9 steps_listed refl only_one

-- A plain move and an en-passant capture between the same squares.
render-injective_example :
    (from_square 9 ≡ from_square 32777)
    × (to_square 9 ≡ to_square 32777)
    × (promotes 9 ≡ promotes 32777)
    × (promotes 9 ≡ true → promotion_type 9 ≡ promotion_type 32777)
unfolding is_ok render promotes
render-injective_example = render-injective 9 32777 refl refl refl
