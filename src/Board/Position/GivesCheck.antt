-- ===== src/Board/Position/GivesCheck.antt =====
-- crates/rfish-engine/src/board/position.rs: `gives_check` and `do_move`, and the sums over the board
-- that the tablebases ask for.
use rfish.Prelude.{ℕ, Bool, true, false, not, ◌&&◌, ◌||◌, ◌==◌, ltb, if◌then◌else◌}
use rfish.Prelude.{Option, some, ◌>>=◌, bit_and, bit_or, bit_xor}
use rfish.Prelude.Int.{pos_part, neg_part}
use rfish.Board.Piece.{opponent, piece_type, pawn, bishop, rook, queen}
use rfish.Board.Square.{make, file, rank}
use rfish.Board.Move.{
  Move, MoveType, normal, promotion, en_passant, castling, move_type, from_square, to_square,
  promotion_type,
}
use rfish.Board.Bitboard.{any, is_empty, contains, from_square as square_bb}
use rfish.Board.Attacks.{Sliders, piece_attacks, aligned}
use rfish.Board.Zobrist.{Tables}
use rfish.Board.Placement.{occupied, pieces, pieces_of2, king_square, count_both, piece_total}
use rfish.Board.Position.{Position}
use rfish.Board.Position.Threats.{blockers_for_king, check_squares}
use rfish.Board.Position.Transition.{do_move_checked}

module _ (sl : Sliders) (p : Position) where
  -- The special moves, when neither the mover nor a line that it leaves gives check.
  special_check : MoveType → Move → ℕ → Option Bool
  unfolding from_square to_square promotion_type piece_attacks contains square_bb make file rank
  special_check normal m ksq = some false
  special_check promotion m ksq =
      piece_attacks sl (promotion_type m) (to_square m)
        (bit_xor (occupied p.placement) (square_bb (from_square m)))
      >>= λ b. some (contains b ksq)
  special_check en_passant m ksq =
      let us = p.side_to_move in
      let capsq = make (file (to_square m)) (rank (from_square m)) in
      let occ =
        bit_or
          (bit_xor (bit_xor (occupied p.placement) (square_bb (from_square m))) (square_bb capsq))
          (square_bb (to_square m)) in
      some (
        any (bit_and (sl.rook ksq occ) (pieces_of2 p.placement us rook queen))
        || any (bit_and (sl.bishop ksq occ) (pieces_of2 p.placement us bishop queen)))
  special_check castling m ksq =
      let from = from_square m in
      let to = to_square m in
      let rook_to = make (if ltb from to then 5 else 3) (rank from) in
      let king_to = make (if ltb from to then 6 else 2) (rank from) in
      let occ =
        bit_or
          (bit_or (bit_xor (bit_xor (occupied p.placement) (square_bb from)) (square_bb to))
            (square_bb rook_to))
          (square_bb king_to) in
      some (contains (sl.rook rook_to occ) ksq)

  -- A missing king panics, where it is asked for.
  unfoldable pub gives_check : Move → Option Bool
  unfolding special_check move_type from_square to_square piece_type check_squares contains
      king_square blockers_for_king aligned
  gives_check m =
      let from = from_square m in
      let to = to_square m in
      let them = opponent p.side_to_move in
      if contains (check_squares p (piece_type (p.placement.board from))) to
      then some true
      else (king_square p.placement them >>= λ ksq.
          if contains (blockers_for_king p them) from && not (aligned sl from to ksq)
          then some true
          else special_check (move_type m) m ksq)

unfoldable pub do_move : Sliders → Tables → Position → Move → Option Position
unfolding gives_check do_move_checked
do_move sl keys p m = gives_check sl p m >>= λ check. do_move_checked keys sl m check p

unfoldable pub dtz_is_dtm : Position → Bool
unfolding count_both piece_total
dtz_is_dtm p =
    let pawns = count_both p.placement pawn in
    pos_part pawns == neg_part pawns
    && (piece_total p.placement == 3
        || (piece_total p.placement == 4
            && is_empty (bit_or (pieces p.placement queen) (pieces p.placement rook))))
