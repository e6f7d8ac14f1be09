-- ===== src/Board/Position/Threats.antt =====
-- crates/rfish-engine/src/board/position.rs: the squares that the side not to move attacks, and the reads
-- of the check caches.
use rfish.Prelude.{Option, some, ◌>>=◌, List, [], ◌∷◌, bit_or, bit_xor}
use rfish.Board.Piece.{Color, opponent, color_index, type_index, Piece}
use rfish.Board.Piece.{PieceType, no_type, pawn, knight, bishop, rook, queen, king}
use rfish.Board.Square.{Square}
use rfish.Board.Move.{Move, from_square}
use rfish.Board.Bitboard.{Bitboard, empty, from_square as square_bb, squares, pawn_attacks}
use rfish.Board.Bitboard.Steps.{knight_attacks, king_attacks}
use rfish.Board.Attacks.{Sliders, queen_attacks}
use rfish.Board.Placement.{pieces_of, pieces_of2, occupied, king_square}
use rfish.Board.Position.{Position}

unfoldable pub blockers_for_king : Position → Color → Bitboard
blockers_for_king p c = p.st.blockers (color_index c)

unfoldable pub check_squares : Position → PieceType → Bitboard
check_squares p pt = p.st.check_squares (type_index pt)

unfoldable pub moved_piece : Position → Move → Piece
unfolding from_square
moved_piece p m = p.placement.board (from_square m)

-- The union of what is attacked from each of some squares.
unfoldable pub attacks_of : (Square → Bitboard) → List Square → Bitboard → Bitboard
attacks_of reach [] t = t
attacks_of reach (sq ∷ rest) t = attacks_of reach rest (bit_or t (reach sq))

module _ (sl : Sliders) (p : Position) where
  abbrev them : Color
  them = opponent p.side_to_move

  -- Everything the side not to move attacks, through the king of the side to move.
  all_threats : Bitboard → Square → Bitboard
  unfolding attacks_of squares knight_attacks king_attacks pawn_attacks
  all_threats occ their_king =
      let steps =
        bit_or (pawn_attacks (pieces_of p.placement them pawn) them) (king_attacks their_king) in
      let knights = attacks_of knight_attacks (squares (pieces_of p.placement them knight)) steps in
      let diagonal =
        attacks_of (λ sq. sl.bishop sq occ) (squares (pieces_of2 p.placement them bishop queen))
          knights in
      attacks_of (λ sq. sl.rook sq occ) (squares (pieces_of2 p.placement them rook queen)) diagonal

  threats_at : PieceType → Bitboard → Option Bitboard
  unfolding all_threats attacks_of squares knight_attacks king_attacks pawn_attacks queen_attacks
      king_square
  threats_at pawn occ = some (pawn_attacks (pieces_of p.placement them pawn) them)
  threats_at knight occ =
      some (attacks_of knight_attacks (squares (pieces_of p.placement them knight)) empty)
  threats_at bishop occ =
      some (attacks_of (λ sq. sl.bishop sq occ) (squares (pieces_of p.placement them bishop)) empty)
  threats_at rook occ =
      some (attacks_of (λ sq. sl.rook sq occ) (squares (pieces_of p.placement them rook)) empty)
  threats_at queen occ = some (
      attacks_of (λ sq. queen_attacks sl sq occ) (squares (pieces_of p.placement them queen)) empty)
  threats_at king occ = king_square p.placement them >>= λ sq. some (king_attacks sq)
  threats_at no_type occ = king_square p.placement them >>= λ sq. some (all_threats occ sq)

  -- `ALL_PIECES` is the type with index zero. A missing king panics.
  unfoldable pub threats_by : PieceType → Option Bitboard
  unfolding threats_at king_square square_bb
  threats_by pt = do
    ksq ← king_square p.placement p.side_to_move
    threats_at pt (bit_xor (occupied p.placement) (square_bb ksq))
