-- ===== src/Board/MoveGen/Legal.antt =====
-- crates/rfish-engine/src/board/movegen.rs: castling, the king, and all the legal moves of a kind.
use rfish.Prelude.{Bool, true, false, not, ◌&&◌, ◌||◌, ltb, if◌then◌else◌, bit_and}
use rfish.Prelude.{Option, some, ◌>>=◌, List, [], ◌∷◌, ◌++◌}
use rfish.Board.Piece.{Color, opponent}
use rfish.Board.Piece.{no_type, knight, bishop, rook, queen}
use rfish.Board.Square.{Square, make, rank}
use rfish.Board.Castling.{CastlingRights, king_side, queen_side}
use rfish.Board.Move.{Move, MoveType, new, typed}
use rfish.Board.Bitboard.{
  Bitboard, empty, any, is_empty, contains, squares, not_u64, lsb, more_than_one,
}
use rfish.Board.Bitboard.Steps.{knight_attacks, king_attacks}
use rfish.Board.Attacks.{Sliders, queen_attacks}
use rfish.Board.Placement.{occupied, colored, pieces_of, king_square}
use rfish.Board.Position.{Position, in_check, can_castle, castling_impeded, castling_rook_square_of}
use rfish.Board.Position.Threats.{blockers_for_king, threats_by}
use rfish.Board.MoveGen.{
  GenType, captures, quiets, evasions, is_evasions, is_quiets, each_to, generate_for,
}
use rfish.Board.MoveGen.Pawns.{generate_pawn_moves}

-- One of the two castling moves. A right without a rook panics.
castle_with : Sliders → Position → Color → Square → CastlingRights → Option (List Move)
unfolding can_castle castling_impeded castling_rook_square_of make rank threats_by blockers_for_king
    contains typed
castle_with sl p us ksq cr =
    if can_castle p cr && not (castling_impeded p cr)
    then (do
      rook_sq ← castling_rook_square_of p cr
      let king_to = make (if ltb ksq rook_sq then 6 else 2) (rank ksq)
      threats ← threats_by sl p no_type
      some (
          if is_empty (bit_and (sl.between_bb ksq king_to) threats)
            && not (contains (blockers_for_king p us) rook_sq)
          then typed MoveType.castling ksq rook_sq knight ∷ []
          else []))
    else some []

unfoldable pub generate_castling : Sliders → Position → Color → Square → Option (List Move)
unfolding castle_with king_side queen_side
generate_castling sl p us ksq = do
  short ← castle_with sl p us ksq (king_side us)
  long ← castle_with sl p us ksq (queen_side us)
  some (short ++ long)

-- Where a piece may go: to answer the single check, to capture, or to be quiet. No checker panics.
unfoldable pub piece_target : Sliders → Position → GenType → Square → Option Bitboard
unfolding lsb
piece_target sl p evasions ksq = lsb p.st.checkers >>= λ checker. some (sl.between_bb ksq checker)
piece_target sl p captures ksq = some (colored p.placement (opponent p.side_to_move))
piece_target sl p quiets ksq = some (not_u64 (occupied p.placement))

-- The pawns and the pieces but the king, for a target.
unfoldable pub generate_pieces : Sliders → Position → GenType → Square → Bitboard → List Move
unfolding generate_pawn_moves generate_for blockers_for_king knight_attacks queen_attacks
generate_pieces sl p gt ksq target =
    let us = p.side_to_move in
    let occ = occupied p.placement in
    let pinned = blockers_for_king p us in
    generate_pawn_moves p us gt ksq p.st.checkers occ (colored p.placement (opponent us)) target
    ++ (generate_for sl ksq (pieces_of p.placement us knight) pinned target true knight_attacks
        ++ (generate_for sl ksq (pieces_of p.placement us bishop) pinned target false
              (λ sq. sl.bishop sq occ)
            ++ (generate_for sl ksq (pieces_of p.placement us rook) pinned target false
                  (λ sq. sl.rook sq occ)
                ++ generate_for sl ksq (pieces_of p.placement us queen) pinned target false
                    (λ sq. queen_attacks sl sq occ))))

-- The king's steps off the attacked squares, which are only asked for when there is a step.
unfoldable pub king_moves : Sliders → Position → Square → Bitboard → Option (List Move)
unfolding king_attacks threats_by each_to squares new
king_moves sl p ksq target =
    let reach = bit_and (king_attacks ksq) target in
    if any reach
    then (threats_by sl p no_type >>= λ t.
        some (each_to (λ to. new ksq to) (squares (bit_and reach (not_u64 t)))))
    else some []

-- The target and the moves of all but the king; under a double check nothing else moves.
unfoldable pub generate_others :
    Sliders → Position → GenType → Square → Option (Bitboard × List Move)
unfolding more_than_one piece_target generate_pieces
generate_others sl p gt ksq =
    if not (is_evasions gt) || not (more_than_one p.st.checkers)
    then (piece_target sl p gt ksq >>= λ target. some (target, generate_pieces sl p gt ksq target))
    else some (empty, [])

-- The king's target is the pieces' one, but under check every square that its side does not hold.
unfoldable pub generate_into : Sliders → Position → GenType → Option (List Move)
unfolding king_square generate_others king_moves generate_castling
generate_into sl p gt = do
  ksq ← king_square p.placement p.side_to_move
  found ← generate_others sl p gt ksq
  steps ←
      king_moves sl p ksq
        (if is_evasions gt then not_u64 (colored p.placement p.side_to_move) else found.0)
  castling ← (if is_quiets gt then generate_castling sl p p.side_to_move ksq else some [])
  some (found.1 ++ (steps ++ castling))

unfoldable pub generate_legal : Sliders → Position → Option (List Move)
unfolding generate_into
generate_legal sl p = if in_check p then generate_into sl p evasions else (do
  taking ← generate_into sl p captures
  rest ← generate_into sl p quiets
  some (taking ++ rest))

abbrev is_nil : List Move → Bool
is_nil [] = true
is_nil (m ∷ ms) = false

unfoldable pub has_legal_move : Sliders → Position → Option Bool
unfolding generate_into
has_legal_move sl p =
    if in_check p then (generate_into sl p evasions >>= λ ms. some (not (is_nil ms))) else (do
      taking ← generate_into sl p captures
      if is_nil taking
          then (generate_into sl p quiets >>= λ ms. some (not (is_nil ms)))
          else some true)
