-- ===== src/Board/Position/Setup/Steps.antt =====
-- The captures, pushes and promotions of a move: the key goes with the board.
use rfish.Prelude.{◌<◌, ◌≡◌, refl, ap, sym, ◌∙◌, Holds, Holds-bind, if_both, bit_and, bit_or, ◌||◌}
use rfish.Prelude.{
  Bool, true, false, not, ◌&&◌, ◌==◌, if◌then◌else◌, Bool-cases, inl, inr, ◌⊎◌, Option, none, some,
  bit_xor,
}
use rfish.Prelude.Bits.{zero_xor}
use rfish.Board.Piece.{Color, PieceType, Piece}
use rfish.Board.Square.{Square, file}
use rfish.Board.Zobrist.{Tables, Key}
use rfish.Board.Position.{StateInfo, is_type}
use rfish.Board.Position.Setup.{ep_part}
use rfish.Board.Move.{MoveType}
use rfish.Board.Piece.{is_none, opponent}
use rfish.Board.Placement.{Placement, remove_piece}
use rfish.Board.Position.Moves.{is_pawn, captured_by, capture_square, promotes, promote}
use rfish.Board.Position.State.{
  lose_piece, took, capture_state, count_slot, set_ep, double_push, promoted, promote_state,
  move_state, pawn_moved, hop,
}
use rfish.Board.Attacks.{Sliders}
use rfish.Board.Square.{shift, pawn_push, apart}
use rfish.Board.Piece.{new as new_piece, pawn, color_index}
use rfish.Prelude.Int.{pos, ◌-ℤ◌}
use rfish.Board.Bitboard.{any, contains, not_u64}
use rfish.Board.Bitboard.Steps.{pawn_attacks_from}
use rfish.Board.Placement.{pieces_of, king_square}
use rfish.Board.Position.Setup.Incremental.{
  IsKeyed, IsReady, IsReady-moves, ep_changes, no_ep_part, on_board_part,
}

-- A choice of four results, of which the second leaves another board.
Holds-choose :
    (B : Key → StateInfo → Type 0) (b b' : Key) (is_double is_promotion moves_pawn : Bool)
    (pushed changed plain other : Option StateInfo)
    → ((moves_pawn && is_double) ≡ true → Holds (B b) pushed)
    → Holds (B b') changed
    → Holds (B b) plain
    → Holds (B b) other
    → Holds (B (if moves_pawn && not is_double && is_promotion then b' else b)) (
        if moves_pawn
        then (if is_double then pushed else if is_promotion then changed else plain)
        else other)
Holds-choose B b b' is_double is_promotion false pushed changed plain other hp hc hq ho = ho
Holds-choose B b b' true is_promotion true pushed changed plain other hp hc hq ho = hp refl
Holds-choose B b b' false true true pushed changed plain other hp hc hq ho = hc
Holds-choose B b b' false false true pushed changed plain other hp hc hq ho = hq

both_values : (c : Bool) → c ≡ true → c ≡ false → ⊥
both_values c on off = cc

module _ (keys : Tables) where
  lose_piece-kept :
      (c : Color) (pc : Piece) (sq : Square) (st : StateInfo)
      → ((lose_piece keys c pc sq st).key ≡ st.key)
        × ((lose_piece keys c pc sq st).ep_square ≡ st.ep_square)
        × ((lose_piece keys c pc sq st).castling_rights ≡ st.castling_rights)
  unfolding lose_piece
  lose_piece-kept c pc sq st = elim (Bool-cases (is_pawn pc)) [
    | inl e ↦ rw (e, lose_piece) (refl, refl, refl)
    | inr e ↦ rw (e, lose_piece) (refl, refl, refl)
  ]

  -- A capture: the key loses the victim as the board does.
  pub capture_state-IsReady :
      (b s : Key) (mt : MoveType) (us : Color) (to : Square) (p : Placement) (st : StateInfo)
      → IsReady keys b s st
      → Holds
          (IsReady keys
            (if is_none (captured_by mt us to p)
              then b
              else bit_xor b (keys.psq (captured_by mt us to p) (capture_square mt us to)))
            s)
          (capture_state keys mt us to p st)
  unfolding capture_state
  capture_state-IsReady b s mt us to p st h =
      let pc = captured_by mt us to p in
      let sq = capture_square mt us to in
      elim (Bool-cases (is_none pc)) [
        | inl none_there ↦ rw none_there h
        | inr some_victim ↦ rw some_victim (
            Holds-bind (IsReady keys (bit_xor b (keys.psq pc sq)) s)
              (count_slot ((remove_piece sq p).piece_count pc))
              (λ slot. some (took keys (opponent us) pc sq slot st))
              (λ slot.
                let st' = record st { key = bit_xor st.key (keys.psq pc sq) } in
                let kept = lose_piece-kept (opponent us) pc sq st' in
                IsReady-moves keys b s (keys.psq pc sq) st (took keys (opponent us) pc sq slot st) h
                  kept.0 kept.1 kept.2))
      ]

  set_ep-IsKeyed :
      (b s : Key) (ep : Square) (st : StateInfo)
      → IsReady keys b s st
      → ep < 64
      → IsKeyed keys b s (set_ep keys ep st)
  set_ep-IsKeyed b s ep st (h, no_ep) fits =
      let before : ep_part keys st.ep_square ≡ 0 = ap (ep_part keys) no_ep ∙ no_ep_part keys in
      let after : ep_part keys ep ≡ keys.en_passant (file ep) = on_board_part keys ep fits in
      ep_changes st.key b (ep_part keys st.ep_square) s (keys.castling st.castling_rights) h
        (keys.en_passant (file ep))
      ∙ ap (λ t. bit_xor (bit_xor (bit_xor b t) s) (keys.castling st.castling_rights))
          (ap (λ t. bit_xor t (keys.en_passant (file ep))) before
            ∙ zero_xor (keys.en_passant (file ep))
            ∙ sym after)

  -- A double push: the en-passant square is set with its part of the key, or not at all.
  double_push-IsKeyed :
      (sl : Sliders) (b s : Key) (us : Color) (from to : Square) (p : Placement) (st : StateInfo)
      → IsReady keys b s st
      → shift to (pawn_push (opponent us)) < 64
      → Holds (IsKeyed keys b s) (double_push keys sl us from to p st)
  unfolding double_push
  double_push-IsKeyed sl b s us from to p st h fits =
      let them = opponent us in
      let ep = shift to (pawn_push them) in
      let pawns = bit_and (pawn_attacks_from us ep) (pieces_of p them pawn) in
      let not_blockers = not_u64 (st.blockers (color_index them)) in
      let legal = (λ (ksq : Square).
        (contains not_blockers from || file from == file ksq)
        && any (bit_and pawns (bit_or not_blockers (sl.line_bb ep ksq)))) in
      if_both (Holds (IsKeyed keys b s)) (any pawns) _ (some st)
        (Holds-bind (IsKeyed keys b s) (king_square p them)
          (λ ksq. some (if legal ksq then set_ep keys ep st else st))
          (λ ksq.
            if_both (IsKeyed keys b s) (legal ksq) (set_ep keys ep st) st
              (set_ep-IsKeyed b s ep st h fits) h.0))
        h.0

  promote_state-IsReady :
      (b s : Key) (us : Color) (to : Square) (promo : PieceType) (pc : Piece) (p : Placement)
      (st : StateInfo)
      → IsReady keys b s st
      → Holds
          (IsReady keys (bit_xor b (bit_xor (keys.psq pc to) (keys.psq (new_piece us promo) to))) s)
          (promote_state keys us to promo pc p st)
  unfolding promote_state promoted
  promote_state-IsReady b s us to promo pc p st h =
      let new = new_piece us promo in
      let d = bit_xor (keys.psq pc to) (keys.psq new to) in
      Holds-bind (IsReady keys (bit_xor b d) s) (count_slot (p.piece_count new -ℤ pos 1)) _
        (λ promo_slot.
          Holds-bind (IsReady keys (bit_xor b d) s) (count_slot (p.piece_count pc))
            (λ pawn_slot. some (promoted keys us to new pc promo_slot pawn_slot st))
            (λ pawn_slot.
              IsReady-moves keys b s d st (promoted keys us to new pc promo_slot pawn_slot st) h
                refl refl refl))

  Holds-ready :
      (b s : Key) (o : Option StateInfo) → Holds (IsReady keys b s) o → Holds (IsKeyed keys b s) o
  Holds-ready b s none h = tt
  Holds-ready b s (some st) h = h.0

  -- The mover: the key moves with the board, a promotion's replacement included.
  pub move_state-IsKeyed :
      (sl : Sliders) (b s : Key) (mt : MoveType) (us : Color) (from to : Square) (promo : PieceType)
      (pc : Piece) (p : Placement) (st : StateInfo)
      → IsReady keys b s st
      → ((is_pawn pc && apart to from == 16) ≡ false) ⊎ (shift to (pawn_push (opponent us)) < 64)
      → Holds
          (IsKeyed keys
            (if promotes mt pc from to
              then bit_xor
                  (bit_xor b (hop keys pc from to))
                  (bit_xor (keys.psq pc to) (keys.psq (new_piece us promo) to))
              else bit_xor b (hop keys pc from to))
            s)
          (move_state keys sl mt us from to promo pc p st)
  unfolding move_state
  move_state-IsKeyed sl b s mt us from to promo pc p st h on_board =
      let d = hop keys pc from to in
      let pushed = pawn_moved keys pc from to st in
      let ready : IsReady keys (bit_xor b d) s pushed =
        IsReady-moves keys b s d st pushed h refl refl refl in
      Holds-choose (λ k. IsKeyed keys k s) (bit_xor b d)
        (bit_xor (bit_xor b d) (bit_xor (keys.psq pc to) (keys.psq (new_piece us promo) to)))
        (apart to from == 16) (is_type mt MoveType.promotion) (is_pawn pc) _ _ _ _
        (λ double. elim on_board [
          | inl never ↦ absurd (both_values (is_pawn pc && apart to from == 16) double never)
          | inr fits ↦ double_push-IsKeyed sl (bit_xor b d) s us from to p pushed ready fits
        ])
        (Holds-ready _ s _ (
          promote_state-IsReady (bit_xor b d) s us to promo pc (promote mt us from to promo pc p)
            pushed ready))
        ready.0
        (IsReady-moves keys b s d st (record st { key = bit_xor st.key d }) h refl refl refl).0
