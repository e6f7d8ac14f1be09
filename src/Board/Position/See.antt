-- ===== src/Board/Position/See.antt =====
-- crates/rfish-engine/src/board/position.rs: `see_ge`, the exchange on one square.
pub mod Ends
use rfish.Prelude.{ℕ, zero, suc, Bool, true, false, not, ◌==◌, if◌then◌else◌, Option, none, some}
use rfish.Prelude.{◌>>=◌, bit_and, bit_or, bit_xor}
use rfish.Prelude.Int.{ℤ, pos, ◌-ℤ◌, ltb_ℤ, leb_ℤ}
use rfish.Board.Piece.{Color, white, opponent, color_index, new as new_piece}
use rfish.Board.Piece.{PieceType, no_type, pawn, knight, bishop, rook, queen, king}
use rfish.Board.Square.{Square}
use rfish.Board.Move.{Move, MoveType, move_type, from_square, to_square}
use rfish.Board.Value.{Value, value_zero, piece_value}
use rfish.Board.Bitboard.{Bitboard, empty, any, is_empty, lsb, not_u64, from_square as square_bb}
use rfish.Board.Attacks.{Sliders}
use rfish.Board.Placement.{occupied, pieces, colored}
use rfish.Board.Position.{Position, is_type}
use rfish.Board.Position.Checks.{attackers_to_occ}
use rfish.Board.Position.Threats.{blockers_for_king}

-- `i32::from` of a Boolean.
abbrev pub as_int : Bool → ℤ
as_int true = pos 1
as_int false = pos 0

module _ (sl : Sliders) (p : Position) where
  -- The cheapest type among some pieces, with its pieces; `none` when only the king is left.
  unfoldable pub cheapest : Bitboard → Option (PieceType × Bitboard)
  cheapest own =
      let of = λ (pt : PieceType). bit_and own (pieces p.placement pt) in
      if any (of pawn)
      then some (pawn, of pawn)
      else if any (of knight)
      then some (knight, of knight)
      else if any (of bishop)
      then some (bishop, of bishop)
      else if any (of rook)
      then some (rook, of rook)
      else if any (of queen)
      then some (queen, of queen)
      else none

  -- Those whose rays go through the square of a piece that has taken.
  unfoldable pub behind : PieceType → Square → Bitboard → Bitboard
  behind pt to occ =
      let diagonal =
        bit_and (sl.bishop to occ)
          (bit_or (pieces p.placement bishop) (pieces p.placement queen)) in
      let straight =
        bit_and (sl.rook to occ) (bit_or (pieces p.placement rook) (pieces p.placement queen)) in
      elim pt [
        | pawn ↦ diagonal
        | bishop ↦ diagonal
        | rook ↦ straight
        | queen ↦ bit_or diagonal straight
        | _ ↦ empty
      ]

  -- The attackers of a side that may join: not the pinned ones while a pinner stands.
  unfoldable pub joining : Color → Bitboard → Bitboard → Bitboard
  unfolding blockers_for_king
  joining stm attackers occ =
      let own = bit_and attackers (colored p.placement stm) in
      if any (bit_and (p.st.pinners (color_index (opponent stm))) occ)
      then bit_and own (not_u64 (blockers_for_king p stm))
      else own

  -- The loop, on fuel: `none` when it runs out. The arguments are the side that took last, the squares
  -- still occupied, the attackers, the margin and the answer so far.
  unfoldable pub see_loop : ℕ → Square → Color → Bitboard → Bitboard → ℤ → Bool → Option Bool
  unfolding joining cheapest behind lsb square_bb piece_value new_piece ◌-ℤ◌
  see_loop zero to last occ reaching swap result = none
  see_loop (suc n) to last occ reaching swap result =
      let stm = opponent last in
      let attackers = bit_and reaching occ in
      let own = joining stm attackers occ in
      let turned = not result in
      if is_empty own then some result else elim (cheapest own) [
        | none ↦ some (
            if any (bit_and attackers (not_u64 (colored p.placement stm)))
            then not turned
            else turned)
        | some (pt, bb) ↦
            let margin = piece_value (new_piece white pt) -ℤ swap in
            if ltb_ℤ margin (as_int turned)
            then some turned
            else (lsb bb >>= λ sq.
                let left = bit_xor occ (square_bb sq) in
                see_loop n to stm left (bit_or attackers (behind pt to left)) margin turned)
      ]

  -- The rounds are at most the 64 squares and the last test.
  unfoldable pub see_ge : Move → Value → Option Bool
  unfolding see_loop attackers_to_occ piece_value move_type from_square to_square square_bb ◌-ℤ◌
  see_ge m threshold =
      let from = from_square m in
      let to = to_square m in
      let swap = piece_value (p.placement.board to) -ℤ threshold in
      let margin = piece_value (p.placement.board from) -ℤ swap in
      let occ = bit_xor (bit_xor (occupied p.placement) (square_bb from)) (square_bb to) in
      if not (is_type (move_type m) MoveType.normal)
      then some (leb_ℤ threshold value_zero)
      else if ltb_ℤ swap (pos 0)
      then some false
      else if leb_ℤ margin (pos 0)
      then some true
      else see_loop 65 to p.side_to_move occ (attackers_to_occ sl p.placement to occ) margin true
