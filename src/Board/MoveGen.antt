-- ===== src/Board/MoveGen.antt =====
-- crates/rfish-engine/src/board/movegen.rs: the kinds of generation, and the loops that the generators
-- share. A list of moves is what a generator appends to its sink, in order.
pub mod Pieces
pub mod Pawns
pub mod Legal
use rfish.Prelude.{
  ℕ, ◌+◌, Bool, true, false, not, ◌&&◌, ◌||◌, ◌==◌, ltb, if◌then◌else◌, bit_and, bit_or,
}
use rfish.Prelude.{Option, none, some, ◌>>=◌, List, [], ◌∷◌, ◌++◌, length}
use rfish.Board.Piece.{Color, white, black, opponent}
use rfish.Board.Piece.{PieceType, no_type, pawn, knight, bishop, rook, queen, king}
use rfish.Board.Square.{Square, make, rank, shift, square, pawn_push}
use rfish.Board.Square.{
  Direction, north, east, south, west, north_east, south_east, south_west, north_west,
}
use rfish.Board.Castling.{CastlingRights, king_side, queen_side}
use rfish.Board.Move.{Move, MoveType, new, typed}
use rfish.Board.Bitboard.{
  Bitboard, any, is_empty, contains, squares, not_u64, shift as shift_bb, lsb, more_than_one,
}
use rfish.Board.Bitboard.{from_square as square_bb}
use rfish.Board.Bitboard.Steps.{knight_attacks, king_attacks, file_bb, relative_rank_bb}
use rfish.Board.Attacks.{Sliders, queen_attacks, diag_bb, antidiag_bb}
use rfish.Board.Placement.{occupied, colored, pieces_of, king_square}
use rfish.Board.Position.{Position, in_check, can_castle, castling_impeded, castling_rook_square_of}
use rfish.Board.Position.Threats.{blockers_for_king, threats_by}

pub data GenType : Type 0 where
  captures quiets evasions : GenType

abbrev pub is_evasions : GenType → Bool
is_evasions evasions = true
is_evasions _ = false

abbrev pub is_captures : GenType → Bool
is_captures captures = true
is_captures _ = false

abbrev pub is_quiets : GenType → Bool
is_quiets quiets = true
is_quiets _ = false

-- `for to in targets { push(make(to)) }` over some squares.
unfoldable pub each_to : (Square → Move) → List Square → List Move
each_to move [] = []
each_to move (to ∷ rest) = move to ∷ each_to move rest

-- The two loops over the pieces of a set and the targets of each.
unfoldable pub each_from : (Square → Bitboard) → List Square → List Move
unfolding each_to squares new
each_from targets [] = []
each_from targets (from ∷ rest) =
    each_to (λ to. new from to) (squares (targets from)) ++ each_from targets rest

-- `generate_for`: the unpinned pieces, and then the pinned ones along the line through the king; a
-- pinned knight stays.
unfoldable pub generate_for :
    Sliders → Square → Bitboard → Bitboard → Bitboard → Bool → (Square → Bitboard) → List Move
unfolding each_from squares
generate_for sl ksq own pinned target is_knight reach =
    each_from (λ from. bit_and (reach from) target) (squares (bit_and own (not_u64 pinned)))
    ++ (if is_knight
        then []
        else each_from (λ from. bit_and (bit_and (reach from) target) (sl.line_bb ksq from))
            (squares (bit_and own pinned)))
