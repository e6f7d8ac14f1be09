-- ===== src/Board/MoveGen/Pawns.antt =====
-- crates/rfish-engine/src/board/movegen.rs: the moves of the pawns.
use rfish.Prelude.{Bool, true, false, not, ◌&&◌, ◌||◌, if◌then◌else◌, bit_and, bit_or}
use rfish.Prelude.{none, some, List, [], ◌∷◌, ◌++◌}
use rfish.Board.Piece.{Color, white, black}
use rfish.Board.Piece.{pawn, knight, bishop, rook, queen}
use rfish.Board.Square.{Square, shift, square, pawn_push}
use rfish.Board.Square.{
  Direction, north, east, south, west, north_east, south_east, south_west, north_west,
}
use rfish.Board.Move.{Move, MoveType, new, typed}
use rfish.Board.Bitboard.{Bitboard, any, contains, squares, not_u64, shift as shift_bb}
use rfish.Board.Bitboard.{from_square as square_bb}
use rfish.Board.Bitboard.Steps.{file_bb, relative_rank_bb}
use rfish.Board.Attacks.{diag_bb, antidiag_bb}
use rfish.Board.Placement.{pieces_of}
use rfish.Board.Position.{Position}
use rfish.Board.Position.Threats.{blockers_for_king}
use rfish.Board.MoveGen.{GenType, is_evasions, is_captures, is_quiets, each_to}

unfoldable pub opposite : Direction → Direction
opposite north = south
opposite south = north
opposite east = west
opposite west = east
opposite north_east = south_west
opposite south_west = north_east
opposite north_west = south_east
opposite south_east = north_west

abbrev up_right : Color → Direction
up_right white = north_east
up_right black = south_west

abbrev up_left : Color → Direction
up_left white = north_west
up_left black = south_east

-- One pawn that reaches the last rank.
promotions : GenType → Bool → Square → Square → List Move
unfolding typed
promotions gt enemy from to =
    (if is_quiets gt then [] else typed MoveType.promotion from to queen ∷ [])
    ++ (if is_evasions gt || (is_captures gt && enemy) || (is_quiets gt && not enemy)
        then typed MoveType.promotion from to rook
          ∷ typed MoveType.promotion from to bishop
          ∷ typed MoveType.promotion from to knight
          ∷ []
        else [])

each_promotion : GenType → Bool → Direction → List Square → List Move
unfolding promotions shift
each_promotion gt enemy back [] = []
each_promotion gt enemy back (to ∷ rest) =
    promotions gt enemy (shift to back) to ++ each_promotion gt enemy back rest

module _ (p : Position) (us : Color) (gt : GenType) (ksq : Square)
    (checkers occ enemies target : Bitboard) where
  abbrev up : Direction
  up = pawn_push us

  abbrev pawns : Bitboard
  pawns = pieces_of p.placement us pawn

  abbrev on_seventh : Bitboard
  on_seventh = bit_and pawns (relative_rank_bb us 6)

  abbrev not_on_seventh : Bitboard
  not_on_seventh = bit_and pawns (not_u64 (relative_rank_bb us 6))

  abbrev free : Bitboard
  free = not_u64 (blockers_for_king p us)

  abbrev pushable : Bitboard
  pushable = bit_or free (file_bb ksq)

  abbrev can_capture_left : Bitboard
  can_capture_left = bit_or free (antidiag_bb ksq)

  abbrev can_capture_right : Bitboard
  can_capture_right = bit_or free (diag_bb ksq)

  -- Under check only the checker can be captured.
  abbrev victims : Bitboard
  victims = if is_evasions gt then checkers else enemies

  abbrev answering : Bitboard → Bitboard
  answering b = if is_evasions gt then bit_and b target else b

  unfoldable pub pawn_pushes : List Move
  unfolding relative_rank_bb blockers_for_king file_bb shift_bb squares each_to opposite shift new
  pawn_pushes =
      if is_captures gt
      then []
      else let b1 = bit_and (shift_bb (bit_and not_on_seventh pushable) up) (not_u64 occ) in
        let b2 = bit_and (shift_bb (bit_and b1 (relative_rank_bb us 2)) up) (not_u64 occ) in
        let back = opposite up in
        each_to (λ to. new (shift to back) to) (squares (answering b1))
        ++ each_to (λ to. new (shift (shift to back) back) to) (squares (answering b2))

  unfoldable pub pawn_promotions : List Move
  unfolding relative_rank_bb blockers_for_king file_bb diag_bb antidiag_bb shift_bb squares opposite
      each_promotion
  pawn_promotions =
      if any on_seventh
      then (let b1 =
            bit_and (shift_bb (bit_and on_seventh can_capture_right) (up_right us)) victims in
          let b2 = bit_and (shift_bb (bit_and on_seventh can_capture_left) (up_left us)) victims in
          let b3 = answering (bit_and (shift_bb (bit_and on_seventh pushable) up) (not_u64 occ)) in
          each_promotion gt true (opposite (up_right us)) (squares b1)
          ++ (each_promotion gt true (opposite (up_left us)) (squares b2)
              ++ each_promotion gt false (opposite up) (squares b3)))
      else []

  -- The captures on the en-passant square, none under a check that they leave.
  en_passant_captures : Square → List Move
  unfolding relative_rank_bb blockers_for_king diag_bb antidiag_bb shift_bb shift squares opposite
      typed contains square_bb each_to
  en_passant_captures ep =
      if is_evasions gt && contains target (shift ep up)
      then []
      else let movers = bit_and not_on_seventh (
          bit_or (bit_and can_capture_right (shift_bb (square_bb ep) (opposite (up_right us))))
            (bit_and can_capture_left (shift_bb (square_bb ep) (opposite (up_left us))))) in
        each_to (λ from. typed MoveType.en_passant from ep knight) (squares movers)

  unfoldable pub pawn_captures : List Move
  unfolding relative_rank_bb blockers_for_king diag_bb antidiag_bb shift_bb squares each_to opposite
      shift new en_passant_captures square
  pawn_captures =
      if is_quiets gt
      then []
      else let right =
          bit_and (shift_bb (bit_and not_on_seventh can_capture_right) (up_right us)) victims in
        let left =
          bit_and (shift_bb (bit_and not_on_seventh can_capture_left) (up_left us)) victims in
        each_to (λ to. new (shift to (opposite (up_right us))) to) (squares right)
        ++ (each_to (λ to. new (shift to (opposite (up_left us))) to) (squares left)
            ++ elim (square p.st.ep_square) [ none ↦ [] | some ep ↦ en_passant_captures ep ])

  unfoldable pub generate_pawn_moves : List Move
  unfolding pawn_pushes pawn_promotions pawn_captures
  generate_pawn_moves = pawn_pushes ++ (pawn_promotions ++ pawn_captures)
