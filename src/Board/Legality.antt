-- ===== src/Board/Legality.antt =====
-- crates/rfish-engine/src/board/position.rs: `legal`, the test of a move that comes from elsewhere, and
-- `is_draw`.
pub mod Agreement
use rfish.Prelude.{ℕ, Bool, true, false, not, ◌&&◌, ◌||◌, ◌==◌, ltb, if◌then◌else◌, bit_and}
use rfish.Prelude.{Option, none, some, ◌>>=◌, List, [], ◌∷◌}
use rfish.Board.Piece.{
  Color, color, color_index, opponent, is_none, piece_type, PieceType, type_index, pawn, king,
  no_type,
}
use rfish.Board.Square.{Square, shift, pawn_push, relative_rank}
use rfish.Board.Move.{Move, MoveType, is_ok, move_type, from_square, to_square}
use rfish.Board.Value.{Ply}
use rfish.Board.Bitboard.{any, contains, lsb, more_than_one, from_square as square_bb}
use rfish.Board.Bitboard.Steps.{relative_rank_bb, pawn_attacks_from}
use rfish.Board.Attacks.{Sliders, piece_attacks, aligned}
use rfish.Board.Placement.{occupied, colored, is_empty_square, king_square}
use rfish.Board.Position.{Position, is_type, in_check}
use rfish.Board.Position.Draws.{is_repetition}
use rfish.Board.Position.Threats.{blockers_for_king, threats_by}
use rfish.Board.MoveGen.Legal.{generate_legal, has_legal_move}

unfoldable pub contains_move : List Move → Move → Bool
contains_move [] m = false
contains_move (x ∷ xs) m = x == m || contains_move xs m

abbrev pub is_kind : PieceType → PieceType → Bool
is_kind a b = type_index a == type_index b

-- A plain pawn move: not to the last rank, and a capture, a push, or a double push from the second.
unfoldable pub pawn_may : Position → Square → Square → Bool
unfolding relative_rank_bb square_bb shift pawn_attacks_from contains relative_rank
pawn_may p from to =
    let us = p.side_to_move in
    let push = pawn_push us in
    let single = shift from push in
    not (any (bit_and (relative_rank_bb us 7) (square_bb to)))
    && (contains (bit_and (pawn_attacks_from us from) (colored p.placement (opponent us))) to
        || (to == single && is_empty_square p.placement to)
        || (relative_rank from us == 1
            && to == shift single push
            && is_empty_square p.placement to
            && is_empty_square p.placement single))

unfoldable pub piece_may : Sliders → Position → PieceType → Square → Square → Option Bool
unfolding pawn_may piece_attacks contains
piece_may sl p pt from to =
    if is_kind pt pawn
    then some (pawn_may p from to)
    else (piece_attacks sl pt from (occupied p.placement) >>= λ b. some (contains b to))

-- A check is answered on the square of a single checker or between it and the king.
unfoldable pub answers_check : Sliders → Position → Square → Option Bool
unfolding more_than_one king_square lsb contains
answers_check sl p to =
    if not (any p.st.checkers)
    then some true
    else if more_than_one p.st.checkers
    then some false
    else (do
      ksq ← king_square p.placement p.side_to_move
      checker ← lsb p.st.checkers
      some (contains (sl.between_bb ksq checker) to))

-- The king's square is asked for only when the mover is a blocker.
unfoldable pub keeps_pin : Sliders → Position → Square → Square → Option Bool
unfolding blockers_for_king aligned king_square contains
keeps_pin sl p from to =
    if not (contains (blockers_for_king p p.side_to_move) from)
    then some true
    else (king_square p.placement p.side_to_move >>= λ ksq. some (aligned sl from to ksq))

unfoldable pub keeps_king : Sliders → Position → PieceType → Square → Square → Option Bool
unfolding threats_by answers_check keeps_pin contains
keeps_king sl p pt from to =
    if is_kind pt king
    then (threats_by sl p no_type >>= λ t. some (not (contains t to)))
    else (answers_check sl p to >>= λ answered.
        if answered then keeps_pin sl p from to else some false)

unfoldable pub is_own : Position → Square → Option Bool
unfolding color
is_own p from =
    let pc = p.placement.board from in
    if is_none pc
    then some false
    else (color pc >>= λ c. some (color_index c == color_index p.side_to_move))

unfoldable pub legal : Sliders → Position → Move → Option Bool
unfolding is_ok move_type from_square to_square generate_legal contains_move is_own piece_may
    keeps_king piece_type contains
legal sl p m =
    let from = from_square m in
    let to = to_square m in
    let pt = piece_type (p.placement.board from) in
    if not (is_ok m)
    then some false
    else if not (is_type (move_type m) MoveType.normal)
    then (generate_legal sl p >>= λ ms. some (contains_move ms m))
    else (is_own p from >>= λ own.
        if not own || contains (colored p.placement p.side_to_move) to
        then some false
        else (piece_may sl p pt from to >>= λ reaches.
            if reaches then keeps_king sl p pt from to else some false))

unfoldable pub is_draw : Sliders → Position → Ply → Option Bool
unfolding has_legal_move is_repetition
is_draw sl p ply =
    if ltb 99 p.st.rule50
    then (if not (in_check p)
        then some true
        else (has_legal_move sl p >>= λ found. some (found || is_repetition p ply)))
    else some (is_repetition p ply)
