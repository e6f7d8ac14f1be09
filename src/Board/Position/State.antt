-- ===== src/Board/Position/State.antt =====
-- crates/rfish-engine/src/board/position.rs: what a move writes to the state, a block of
-- `do_move_recording` at a time. The local `key` is the state's own field, which nothing reads between.
pub mod Slots
pub mod Total
use rfish.Prelude.{ℕ, ◌+◌, ◌-◌, ◌==◌, Bool, ◌&&◌, ◌||◌, if◌then◌else◌, Option, none, some, ◌>>=◌}
use rfish.Prelude.{bit_and, bit_or, bit_xor, modify}
use rfish.Prelude.Int.{ℤ, pos, negsuc, ◌+ℤ◌, ◌-ℤ◌}
use rfish.Board.Piece.{
  Color, opponent, Piece, PieceType, is_none, color_index, type_index, new as new_piece,
}
use rfish.Board.Piece.{pawn, knight, bishop}
use rfish.Board.Square.{Square, no_square, square, file, shift, pawn_push, apart, new as new_square}
use rfish.Board.Castling.{CastlingRights, union, intersect, without, is_empty as no_rights_left}
use rfish.Board.Move.{MoveType}
use rfish.Board.Value.{piece_value}
use rfish.Board.Bitboard.{any, contains, not_u64}
use rfish.Board.Bitboard.Steps.{pawn_attacks_from}
use rfish.Board.Attacks.{Sliders}
use rfish.Board.Zobrist.{Tables}
use rfish.Board.Placement.{
  Placement, king_square, pieces_of, remove_piece, move_piece, swap_piece, type_slot,
}
use rfish.Board.Position.{StateInfo, is_type}
use rfish.Board.Position.Moves.{
  king_to, rook_to, capture_square, captured_by, take_captured, is_pawn, promotes, promote,
}

abbrev pub is_minor : Piece → Bool
is_minor pc = type_slot pc == type_index knight || type_slot pc == type_index bishop

-- `Square::new(8 + n)`, which panics past the board; the placement keeps a count from going negative.
unfoldable pub count_slot : ℤ → Option Square
unfolding new_square
count_slot (pos n) = new_square (8 + n)
count_slot (negsuc n) = none

module _ (keys : Tables) where
  -- The parent's state carried forward.
  unfoldable pub carry : StateInfo → StateInfo
  carry st = record st {
    key = bit_xor st.key keys.side;
    rule50 = st.rule50 + 1;
    plies_from_null = st.plies_from_null + 1;
  }

  unfoldable pub clear_ep : StateInfo → StateInfo
  unfolding square file
  clear_ep st = elim (square st.ep_square) [
    | none ↦ st
    | some ep ↦ record st {
      key = bit_xor st.key (keys.en_passant (file ep));
      ep_square = no_square;
    }
  ]

  -- The masks of the two squares.
  unfoldable pub drop_rights : CastlingRights → CastlingRights → StateInfo → StateInfo
  unfolding union intersect without
  drop_rights mask_from mask_to st =
      let lost = intersect (union mask_from mask_to) st.castling_rights in
      let left = without st.castling_rights lost in
      if no_rights_left lost then st else record st {
        key = bit_xor (bit_xor st.key (keys.castling st.castling_rights)) (keys.castling left);
        castling_rights = left;
      }

  -- A piece's key leaves one square and enters another.
  abbrev pub hop : Piece → Square → Square → ℕ
  hop pc from to = bit_xor (keys.psq pc from) (keys.psq pc to)

  unfoldable pub castle_state : Color → Square → Square → Placement → StateInfo → StateInfo
  unfolding king_to rook_to
  castle_state us from to p st =
      let king_hop = hop (p.board from) from (king_to from to) in
      let rook_hop = hop (p.board to) to (rook_to from to) in
      record st {
        key = bit_xor (bit_xor st.key king_hop) rook_hop;
        non_pawn_key =
            modify (modify st.non_pawn_key (color_index us) (λ k. bit_xor k king_hop))
              (color_index us) (λ k. bit_xor k rook_hop);
      }

  -- The keys of a piece of `c` that is captured.
  unfoldable pub lose_piece : Color → Piece → Square → StateInfo → StateInfo
  unfolding piece_value ◌-ℤ◌
  lose_piece c pc sq st =
      let k = keys.psq pc sq in
      if is_pawn pc then record st { pawn_key = bit_xor st.pawn_key k } else record st {
        non_pawn_key = modify st.non_pawn_key (color_index c) (λ x. bit_xor x k);
        non_pawn_material = modify st.non_pawn_material (color_index c) (λ v. v -ℤ piece_value pc);
        minor_piece_key = if is_minor pc then bit_xor st.minor_piece_key k else st.minor_piece_key;
      }

  abbrev pub took : Color → Piece → Square → Square → StateInfo → StateInfo
  took c pc sq slot st =
      let left = lose_piece c pc sq (record st { key = bit_xor st.key (keys.psq pc sq) }) in
      record left { material_key = bit_xor left.material_key (keys.psq pc slot); rule50 = 0 }

  -- `p` is the placement before the move; the count is read after the removal.
  unfoldable pub capture_state :
      MoveType → Color → Square → Placement → StateInfo → Option StateInfo
  unfolding captured_by capture_square lose_piece remove_piece count_slot
  capture_state mt us to p st =
      let pc = captured_by mt us to p in
      let sq = capture_square mt us to in
      if is_none pc then some st else do
        slot ← count_slot ((remove_piece sq p).piece_count pc)
        some (took (opponent us) pc sq slot st)

  abbrev pub set_ep : Square → StateInfo → StateInfo
  set_ep ep st = record st { key = bit_xor st.key (keys.en_passant (file ep)); ep_square = ep }

  -- A double push: the target square is set only where a capture on it is legal. `p` has the pawn moved.
  unfoldable pub double_push :
      Sliders → Color → Square → Square → Placement → StateInfo → Option StateInfo
  unfolding shift pawn_attacks_from king_square contains file
  double_push sl us from to p st =
      let them = opponent us in
      let ep = shift to (pawn_push them) in
      let pawns = bit_and (pawn_attacks_from us ep) (pieces_of p them pawn) in
      if any pawns
      then (do
        ksq ← king_square p them
        let not_blockers = not_u64 (st.blockers (color_index them))
        let no_discovery = contains not_blockers from || file from == file ksq
        some (
            if no_discovery && any (bit_and pawns (bit_or not_blockers (sl.line_bb ep ksq)))
            then set_ep ep st
            else st))
      else some st

  unfoldable pub promoted : Color → Square → Piece → Piece → Square → Square → StateInfo → StateInfo
  unfolding piece_value ◌+ℤ◌
  promoted us to new pc promo_slot pawn_slot st =
      let k = keys.psq new to in
      record st {
        key = bit_xor st.key (bit_xor (keys.psq pc to) k);
        pawn_key = bit_xor st.pawn_key (keys.psq pc to);
        non_pawn_key = modify st.non_pawn_key (color_index us) (λ x. bit_xor x k);
        non_pawn_material =
            modify st.non_pawn_material (color_index us) (λ v. v +ℤ piece_value new);
        minor_piece_key = if is_minor new then bit_xor st.minor_piece_key k else st.minor_piece_key;
        material_key =
            bit_xor (bit_xor st.material_key (keys.psq new promo_slot)) (keys.psq pc pawn_slot);
      }

  -- `p` has the promoted piece in place.
  unfoldable pub promote_state :
      Color → Square → PieceType → Piece → Placement → StateInfo → Option StateInfo
  unfolding new_piece ◌-ℤ◌ count_slot promoted
  promote_state us to promo pc p st = do
    let new = new_piece us promo
    promo_slot ← count_slot (p.piece_count new -ℤ pos 1)
    pawn_slot ← count_slot (p.piece_count pc)
    some (promoted us to new pc promo_slot pawn_slot st)

  abbrev pub pawn_moved : Piece → Square → Square → StateInfo → StateInfo
  pawn_moved pc from to st =
      let k = hop pc from to in
      record st { key = bit_xor st.key k; pawn_key = bit_xor st.pawn_key k; rule50 = 0 }

  -- The mover's own keys, and what only a pawn does. `p` has the piece moved.
  unfoldable pub move_state :
      Sliders
      → MoveType
      → Color
      → Square
      → Square
      → PieceType
      → Piece
      → Placement
      → StateInfo
      → Option StateInfo
  unfolding double_push promote promote_state
  move_state sl mt us from to promo pc p before =
      let k = hop pc from to in
      let st = record before { key = bit_xor before.key k } in
      let pushed = pawn_moved pc from to before in
      if is_pawn pc
      then (if apart to from == 16
          then double_push sl us from to p pushed
          else if is_type mt MoveType.promotion
          then promote_state us to promo pc (promote mt us from to promo pc p) pushed
          else some pushed)
      else some (record st {
        non_pawn_key = modify st.non_pawn_key (color_index us) (λ x. bit_xor x k);
        minor_piece_key = if is_minor pc then bit_xor st.minor_piece_key k else st.minor_piece_key;
      })

  -- The two branches on the move's type; `p` is the placement before the move.
  unfoldable pub next_state :
      Sliders
      → MoveType
      → Color
      → Square
      → Square
      → PieceType
      → Placement
      → StateInfo
      → Option StateInfo
  unfolding castle_state capture_state take_captured move_piece move_state
  next_state sl mt us from to promo p st =
      if is_type mt MoveType.castling then some (castle_state us from to p st) else do
        taken ← capture_state mt us to p st
        move_state sl mt us from to promo (p.board from)
            (move_piece from to (take_captured mt us to p)) taken
