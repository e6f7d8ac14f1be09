-- ===== src/Board/Position/Moves.antt =====
-- crates/rfish-engine/src/board/position.rs: what a move and its undo write to the placement, in the order
-- of `do_move_recording` and `undo_move`.
pub mod RoundTrip
use rfish.Prelude.{ℕ, ◌+◌, ◌==◌, Bool, not, ◌&&◌, ltb, if◌then◌else◌}
use rfish.Board.Piece.{
  Color, PieceType, Piece, opponent, no_piece, is_none, pawn, new as new_piece, type_index,
}
use rfish.Board.Square.{Square, make, rank, shift, pawn_push, apart}
use rfish.Board.Move.{MoveType, Move, move_type, from_square, to_square, promotion_type}
use rfish.Board.Placement.{Placement, put_piece, remove_piece, move_piece, swap_piece, type_slot}
use rfish.Board.Position.{is_type}

-- King takes rook: the two destinations are fixed.
unfoldable pub king_to : Square → Square → Square
unfolding make rank
king_to from to = make (if ltb from to then 6 else 2) (rank from)

unfoldable pub rook_to : Square → Square → Square
unfolding make rank
rook_to from to = make (if ltb from to then 5 else 3) (rank from)

unfoldable pub castle : Square → Square → Placement → Placement
unfolding king_to rook_to put_piece remove_piece
castle from to p =
    put_piece (p.board to) (rook_to from to)
      (put_piece (p.board from) (king_to from to) (remove_piece to (remove_piece from p)))

unfoldable pub capture_square : MoveType → Color → Square → Square
unfolding shift
capture_square mt us to =
    if is_type mt MoveType.en_passant then shift to (pawn_push (opponent us)) else to

unfoldable pub captured_by : MoveType → Color → Square → Placement → Piece
unfolding capture_square
captured_by mt us to p =
    if is_type mt MoveType.en_passant then p.board (capture_square mt us to) else p.board to

-- A capture removes the victim first.
unfoldable pub take_captured : MoveType → Color → Square → Placement → Placement
unfolding captured_by capture_square remove_piece
take_captured mt us to p =
    if is_none (captured_by mt us to p) then p else remove_piece (capture_square mt us to) p

abbrev pub is_pawn : Piece → Bool
is_pawn pc = type_slot pc == type_index pawn

-- A double push is not looked at for a promotion.
abbrev pub promotes : MoveType → Piece → Square → Square → Bool
promotes mt pc from to = is_pawn pc && not (apart to from == 16) && is_type mt MoveType.promotion

unfoldable pub promote :
    MoveType → Color → Square → Square → PieceType → Piece → Placement → Placement
unfolding swap_piece new_piece
promote mt us from to promo pc p =
    if promotes mt pc from to then swap_piece to (new_piece us promo) p else p

unfoldable pub place : MoveType → Color → Square → Square → PieceType → Placement → Placement
unfolding castle take_captured move_piece promote
place mt us from to promo p =
    if is_type mt MoveType.castling
    then castle from to p
    else promote mt us from to promo (p.board from) (move_piece from to (take_captured mt us to p))

unfoldable pub placed : Color → Move → Placement → Placement
unfolding place move_type from_square to_square promotion_type
placed us m p = place (move_type m) us (from_square m) (to_square m) (promotion_type m) p

unfoldable pub uncastle : Square → Square → Placement → Placement
unfolding king_to rook_to put_piece remove_piece
uncastle from to p = put_piece (p.board (rook_to from to)) to (
    put_piece (p.board (king_to from to)) from
      (remove_piece (rook_to from to) (remove_piece (king_to from to) p)))

unfoldable pub unpromote : MoveType → Color → Square → Placement → Placement
unfolding put_piece remove_piece new_piece
unpromote mt us to p =
    if is_type mt MoveType.promotion
    then put_piece (new_piece us pawn) to (remove_piece to p)
    else p

unfoldable pub put_captured : MoveType → Color → Square → Piece → Placement → Placement
unfolding capture_square put_piece
put_captured mt us to captured p =
    if is_none captured then p else put_piece captured (capture_square mt us to) p

-- `captured` is the state's captured piece, `us` the side that made the move.
unfoldable pub unplace : MoveType → Color → Square → Square → Piece → Placement → Placement
unfolding uncastle unpromote move_piece put_captured
unplace mt us from to captured p =
    if is_type mt MoveType.castling
    then uncastle from to p
    else put_captured mt us to captured (move_piece to from (unpromote mt us to p))

unfoldable pub unplaced : Color → Move → Piece → Placement → Placement
unfolding unplace move_type from_square to_square
unplaced us m captured p = unplace (move_type m) us (from_square m) (to_square m) captured p

-- What the state records: a castling move captures nothing.
unfoldable pub captured : Color → Move → Placement → Piece
unfolding captured_by move_type to_square
captured us m p =
    if is_type (move_type m) MoveType.castling
    then no_piece
    else captured_by (move_type m) us (to_square m) p
