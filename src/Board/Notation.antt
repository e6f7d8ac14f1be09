-- ===== src/Board/Notation.antt =====
-- crates/rfish-engine/src/board/movegen.rs: `move_to_uci` and `parse_uci_move`; board/types.rs: the
-- `Debug` rendering of a move. A text is the list of its bytes.
pub mod RoundTrip
pub mod Squares
use rfish.Prelude.{ℕ, Bool, true, false, not, ◌&&◌, ◌||◌, ◌==◌, if◌then◌else◌}
use rfish.Prelude.{Option, none, some, ◌>>=◌, List, [], ◌∷◌, ◌++◌}
use rfish.Board.Piece.{to_lower, type_to_char}
use rfish.Board.Square.{Square, display}
use rfish.Board.Move.{
  Move, MoveType, is_none, null_move, move_type, from_square, to_square, promotion_type,
}
use rfish.Board.Attacks.{Sliders}
use rfish.Board.Position.{Position, is_type}
use rfish.Board.Position.Moves.{king_to}
use rfish.Board.MoveGen.Legal.{generate_legal}

abbrev pub Text : Type 0
Text = List ℕ

unfoldable pub same_text : Text → Text → Bool
same_text [] [] = true
same_text (a ∷ s) (b ∷ t) = a == b && same_text s t
same_text [] (b ∷ t) = false
same_text (a ∷ s) [] = false

-- `(none)`.
abbrev none_text : Text
none_text = b'(' ∷ b'n' ∷ b'o' ∷ b'n' ∷ b'e' ∷ b')' ∷ []

abbrev null_text : Text
null_text = b'0' ∷ b'0' ∷ b'0' ∷ b'0' ∷ []

unfoldable pub squares_text : Square → Square → Text
unfolding display
squares_text from to = (display from).0 ∷ (display from).1 ∷ (display to).0 ∷ (display to).1 ∷ []

unfoldable pub promotes : Move → Bool
unfolding move_type
promotes m = is_type (move_type m) MoveType.promotion

unfoldable pub promotion_text : Move → Text
unfolding type_to_char promotion_type promotes
promotion_text m = if promotes m then to_lower (type_to_char (promotion_type m)) ∷ [] else []

unfoldable pub render : Move → Text
unfolding squares_text promotion_text from_square to_square
render m =
    if is_none m
    then none_text
    else if m == null_move
    then null_text
    else squares_text (from_square m) (to_square m) ++ promotion_text m

-- A castling move outside of Chess960, and its name there: the king's two squares.
unfoldable pub names_king : Position → Move → Bool
unfolding move_type
names_king p m = is_type (move_type m) MoveType.castling && not p.chess960

unfoldable pub king_text : Move → Text
unfolding squares_text king_to from_square to_square
king_text m = squares_text (from_square m) (king_to (from_square m) (to_square m))

unfoldable pub move_to_uci : Position → Move → Text
unfolding render king_text names_king
move_to_uci p m =
    if is_none m
    then none_text
    else if m == null_move
    then null_text
    else if names_king p m
    then king_text m
    else render m

unfoldable pub is_named : Position → Text → Move → Bool
unfolding same_text render king_text names_king
is_named p uci m = same_text (render m) uci || (names_king p m && same_text (king_text m) uci)

unfoldable pub find_named : Position → Text → List Move → Option Move
unfolding is_named
find_named p uci [] = none
find_named p uci (m ∷ ms) =
    let rest = find_named p uci ms in if is_named p uci m then some m else rest

-- `none` also where the generator panics.
unfoldable pub parse_uci_move : Sliders → Position → Text → Option (Option Move)
unfolding generate_legal find_named
parse_uci_move sl p uci = generate_legal sl p >>= λ ms. some (find_named p uci ms)
