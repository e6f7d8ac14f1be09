-- ===== src/Board/Position/Checks.antt =====
-- crates/rfish-engine/src/board/position.rs: who attacks a square, who is pinned, and the caches that
-- each transition recomputes. The slider attacks are an argument.
pub mod Total
use rfish.Prelude.{ℕ, Bool, ◌&&◌, not, if◌then◌else◌, Option, none, some, List, [], ◌∷◌, ◌>>=◌}
use rfish.Prelude.{bit_and, bit_or, bit_xor, update}
use rfish.Board.Piece.{Color, white, black, opponent, color_index, type_index}
use rfish.Board.Piece.{PieceType, pawn, knight, bishop, rook, queen, king}
use rfish.Board.Square.{Square}
use rfish.Board.Bitboard.{Bitboard, empty, any, more_than_one, set, squares}
use rfish.Board.Bitboard.Steps.{pawn_attacks_from, knight_attacks, king_attacks}
use rfish.Board.Attacks.{Sliders}
use rfish.Board.Placement.{Placement, occupied, pieces, colored, pieces_of, king_square, color_slot}
use rfish.Board.Position.{StateInfo}

module _ (sl : Sliders) (p : Placement) where
  unfoldable pub attackers_to_occ : Square → Bitboard → Bitboard
  unfolding pawn_attacks_from knight_attacks king_attacks
  attackers_to_occ sq occ =
      bit_or
        (bit_or
          (bit_or
            (bit_or
              (bit_or (bit_and (pawn_attacks_from black sq) (pieces_of p white pawn))
                (bit_and (pawn_attacks_from white sq) (pieces_of p black pawn)))
              (bit_and (knight_attacks sq) (pieces p knight)))
            (bit_and (sl.rook sq occ) (bit_or (pieces p rook) (pieces p queen))))
          (bit_and (sl.bishop sq occ) (bit_or (pieces p bishop) (pieces p queen))))
        (bit_and (king_attacks sq) (pieces p king))

  unfoldable pub attackers_to : Square → Bitboard
  unfolding attackers_to_occ
  attackers_to sq = attackers_to_occ sq (occupied p)

  -- One round: exactly one piece in the way makes it a blocker, and its sniper a pinner if it is of the
  -- colour of the piece on the square.
  with_sniper : Square → Bitboard → Bitboard × Bitboard → Square → Bitboard × Bitboard
  unfolding more_than_one set
  with_sniper sq occupancy (blockers, pinners) sniper =
      let between = bit_and (sl.between_bb sq sniper) occupancy in
      if any between && not (more_than_one between)
      then (
        bit_or blockers between,
        (if any (bit_and between (p.by_color (color_slot (p.board sq))))
            then set pinners sniper
            else pinners),
      )
      else (blockers, pinners)

  all_snipers : Square → Bitboard → List Square → Bitboard × Bitboard → Bitboard × Bitboard
  unfolding with_sniper
  all_snipers sq occupancy [] found = found
  all_snipers sq occupancy (sniper ∷ rest) found =
      all_snipers sq occupancy rest (with_sniper sq occupancy found sniper)

  unfoldable pub slider_blockers : Color → Square → Bitboard × Bitboard
  unfolding all_snipers squares
  slider_blockers c sq =
      let snipers =
        bit_and
          (bit_or (bit_and (sl.rook sq empty) (bit_or (pieces p queen) (pieces p rook)))
            (bit_and (sl.bishop sq empty) (bit_or (pieces p queen) (pieces p bishop))))
          (colored p c) in
      all_snipers sq (bit_xor (occupied p) snipers) (squares snipers) (empty, empty)

  -- One round of the loop over the colours. A missing king panics.
  pins_of : Color → StateInfo → Option StateInfo
  unfolding slider_blockers king_square
  pins_of c st = do
    ksq ← king_square p c
    let (blockers, pinners) = slider_blockers (opponent c) ksq
    some (record st {
      blockers = update st.blockers (color_index c) blockers;
      pinners = update st.pinners (color_index (opponent c)) pinners;
    })

  -- The entries of the other types stay empty.
  checks_on : Color → Square → ℕ → Bitboard
  unfolding pawn_attacks_from knight_attacks
  checks_on them ksq =
      let diagonal = sl.bishop ksq (occupied p) in
      let straight = sl.rook ksq (occupied p) in
      update
        (update
          (update
            (update (update (λ t. empty) (type_index pawn) (pawn_attacks_from them ksq))
              (type_index knight) (knight_attacks ksq))
            (type_index bishop) diagonal)
          (type_index rook) straight)
        (type_index queen) (bit_or diagonal straight)

  -- The colour is the side to move.
  unfoldable pub set_check_info : Color → StateInfo → Option StateInfo
  unfolding pins_of checks_on king_square
  set_check_info us st = do
    st1 ← pins_of white st
    st2 ← pins_of black st1
    ksq ← king_square p (opponent us)
    some (record st2 { check_squares = checks_on (opponent us) ksq })
