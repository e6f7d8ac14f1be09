-- ===== src/Board/Position/Setup.antt =====
-- crates/rfish-engine/src/board/position.rs: `set_state`, which computes every derived field of a state
-- from the board alone.
pub mod Keys
pub mod Incremental
pub mod Steps
use rfish.Prelude.{
  ℕ, zero, suc, ◌+◌, ◌==◌, not, if◌then◌else◌, Option, none, some, List, [], ◌∷◌, ◌>>=◌,
}
use rfish.Prelude.{bit_and, bit_xor, modify}
use rfish.Prelude.Int.{ℤ, pos, pos_part, ◌+ℤ◌}
use rfish.Board.Piece.{
  Color, white, black, opponent, Piece, PieceType, color_index, type_index, new as new_piece,
}
use rfish.Board.Piece.{pawn, knight, bishop, rook, queen, king}
use rfish.Board.Square.{Square, SquareOrNone, square, file, new as new_square}
use rfish.Board.Value.{value_zero, piece_value}
use rfish.Board.Bitboard.{squares}
use rfish.Board.Attacks.{Sliders}
use rfish.Board.Zobrist.{Tables, Key}
use rfish.Board.Placement.{Placement, occupied, colored, count, king_square, color_slot, type_slot}
use rfish.Board.Position.{StateInfo, Position}
use rfish.Board.Position.Checks.{attackers_to, set_check_info}
use rfish.Board.Position.Moves.{is_pawn}
use rfish.Board.Position.State.{is_minor}

module _ (keys : Tables) where
  -- One round of the loop over the occupied squares: the five sums are fields of the state.
  abbrev pub add_piece : Piece → Square → StateInfo → StateInfo
  add_piece pc sq st =
      let k = keys.psq pc sq in
      let c = color_slot pc in
      record st {
        key = bit_xor st.key k;
        pawn_key = if is_pawn pc then bit_xor st.pawn_key k else st.pawn_key;
        non_pawn_key =
            if is_pawn pc then st.non_pawn_key else modify st.non_pawn_key c (λ x. bit_xor x k);
        non_pawn_material =
            if is_pawn pc
            then st.non_pawn_material
            else if type_slot pc == type_index king
            then st.non_pawn_material
            else modify st.non_pawn_material c (λ v. v +ℤ piece_value pc);
        minor_piece_key = if is_minor pc then bit_xor st.minor_piece_key k else st.minor_piece_key;
      }

  unfoldable pub add_pieces : (Square → Piece) → List Square → StateInfo → StateInfo
  unfolding piece_value ◌+ℤ◌
  add_pieces board [] st = st
  add_pieces board (sq ∷ rest) st = add_pieces board rest (add_piece (board sq) sq st)

  -- The loops over the colours, the types and the pieces of a kind.
  material_of_kind : Piece → ℕ → Key → Option Key
  unfolding new_square
  material_of_kind pc zero k = some k
  material_of_kind pc (suc n) k = do
    below ← material_of_kind pc n k
    slot ← new_square (8 + n)
    some (bit_xor below (keys.psq pc slot))

  material_of_types : Placement → Color → List PieceType → Key → Option Key
  unfolding material_of_kind count new_piece
  material_of_types p c [] k = some k
  material_of_types p c (pt ∷ rest) k = do
    with_kind ← material_of_kind (new_piece c pt) (pos_part (count p c pt)) k
    material_of_types p c rest with_kind

  unfoldable pub material_key : Placement → Option Key
  unfolding material_of_types
  material_key p = do
    let real = pawn ∷ knight ∷ bishop ∷ rook ∷ queen ∷ king ∷ []
    of_white ← material_of_types p white real 0
    material_of_types p black real of_white

  -- The pawns' sum starts at the key of an empty structure.
  abbrev pub no_sums : StateInfo → StateInfo
  no_sums st = record st {
    key = 0;
    pawn_key = keys.no_pawns;
    minor_piece_key = 0;
    non_pawn_key = λ c. 0;
    non_pawn_material = λ c. value_zero;
  }

  unfoldable pub piece_sums : Placement → StateInfo → StateInfo
  unfolding squares add_pieces
  piece_sums p st = add_pieces p.board (squares (occupied p)) (no_sums st)

  abbrev pub ep_part : SquareOrNone → Key
  ep_part s = elim (square s) [ none ↦ 0 | some ep ↦ keys.en_passant (file ep) ]

  abbrev pub side_part : Color → Key
  side_part white = 0
  side_part black = keys.side

  -- The key of the pieces, the en-passant square, the side to move and the castling rights. A part that
  -- is not there is the zero word.
  unfoldable pub position_key : Placement → Color → StateInfo → Key
  unfolding piece_sums square file
  position_key p us st =
      bit_xor (bit_xor (bit_xor (piece_sums p st).key (ep_part st.ep_square)) (side_part us))
        (keys.castling st.castling_rights)

  unfoldable pub set_state : Sliders → Position → Option Position
  unfolding piece_sums position_key material_key attackers_to king_square set_check_info
  set_state sl p = do
    let us = p.side_to_move
    let sums = piece_sums p.placement p.st
    material ← material_key p.placement
    ksq ← king_square p.placement us
    st ← set_check_info sl p.placement us (record sums {
      key = position_key p.placement us p.st;
      material_key = material;
      checkers = bit_and (attackers_to sl p.placement ksq) (colored p.placement (opponent us));
    })
    some (record p { st = st })
