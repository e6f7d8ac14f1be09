-- ===== src/Board/Position/Transition/Keys.antt =====
-- The key that a move maintains is the key that the set-up computes from the board after it.
use rfish.Prelude.{
  ℕ, ◌≡◌, refl, ap, ap₂, sym, subst, ◌∙◌, Holds, Holds-bind, Holds-next, Holds-map, >>=-some, ◌∷◌,
  Holds-some,
}
use rfish.Prelude.{Bool, true, false, inl, inr, some, bit_xor}
use rfish.Prelude.Bits.{xor_self, zero_xor}
use rfish.Board.Piece.{Color, white, black, opponent, PieceType, no_piece}
use rfish.Board.Square.{Square}
use rfish.Board.Move.{Move, MoveType, move_type, from_square, to_square, promotion_type}
use rfish.Board.Zobrist.{Tables, Key}
use rfish.Board.Attacks.{Sliders}
use rfish.Board.Placement.{Placement, move_piece}
use rfish.Board.Position.{StateInfo, Position, is_type}
use rfish.Board.Position.Moves.{take_captured, place, placed, castle, king_to, rook_to}
use rfish.Board.Position.Moves.RoundTrip.{
  IsMove, unplaced-placed, IsCastling, IsStep, place_castling, cleared, moved,
}
use rfish.Board.Position.Setup.Keys.{board_key}
use rfish.Board.Position.Setup.Incremental.{
  IsKeyed, IsReady, prepared_lem, null-IsReady, IsReady-moves,
}
use rfish.Board.Placement.Contract.{IsPlacement}
use rfish.Board.Position.Setup.{position_key, ep_part, side_part}
use rfish.Prelude.Int.{pos}
use rfish.Board.Bitboard.{empty}
use rfish.Board.Position.Setup.Keys.{piece_sums-key}
use rfish.Board.Position.Checks.Total.{
  HasKings, SameKeyed, set_check_info-kept, set_check_info-some,
}
use rfish.Board.Position.Transition.{
  child_state, checkers_after, do_move_checked, do_null_move, set_repetition,
}
use rfish.Board.Position.Transition.RoundTrip.{made, do_move-made, child_state-some}
use rfish.Board.Position.State.Slots.{Few}
use rfish.Board.Position.Checks.{set_check_info}
use rfish.Board.Position.State.{
  carry, clear_ep, drop_rights, castle_state, hop, next_state, capture_state, move_state,
}
use rfish.Board.Position.Setup.Steps.{capture_state-IsReady, move_state-IsKeyed}
use rfish.Board.Position.Transition.BoardKeys.{board_key-exchange, b_cleared, board_key-step}

module _ (keys : Tables) where
  module _ (p : Placement) (mt : MoveType) (us : Color) (from to : Square) (promo : PieceType)
      (step : IsStep p mt us from to promo) where
    -- A move that does not castle.
    step-IsKeyed :
        (sl : Sliders) (s : Key) (st : StateInfo)
        → is_type mt MoveType.castling ≡ false
        → IsReady keys (board_key keys p.board) s st
        → Holds
            (IsKeyed keys (board_key keys (place mt us from to promo p).board) s)
            (next_state keys sl mt us from to promo p st)
    unfolding next_state
    step-IsKeyed sl s st plain h =
        let P = IsKeyed keys (board_key keys (place mt us from to promo p).board) s in
        rw plain (
          Holds-next P (IsReady keys (b_cleared keys p mt us from to promo step) s)
            (capture_state keys mt us to p st) _
            (capture_state-IsReady keys (board_key keys p.board) s mt us to p st h)
            (λ taken ready.
              subst
                (λ b. Holds (IsKeyed keys b s) (
                  move_state keys sl mt us from to promo (p.board from)
                    (move_piece from to (take_captured mt us to p)) taken))
                (sym (board_key-step keys p mt us from to promo step plain))
                (move_state-IsKeyed keys sl (b_cleared keys p mt us from to promo step) s mt us from
                  to promo (p.board from) (moved p mt us from to promo step) taken ready
                  step.double_on_board)))

  castle-IsKeyed :
      (sl : Sliders) (s : Key) (mt : MoveType) (us : Color) (from to : Square) (promo : PieceType)
      (p : Placement) (st : StateInfo)
      → is_type mt MoveType.castling ≡ true
      → IsCastling p from to
      → IsReady keys (board_key keys p.board) s st
      → Holds
          (IsKeyed keys (board_key keys (place mt us from to promo p).board) s)
          (next_state keys sl mt us from to promo p st)
  unfolding next_state castle_state castle
  castle-IsKeyed sl s mt us from to promo p st castles can h =
      let king_hop = hop keys (p.board from) from (king_to from to) in
      let rook_hop = hop keys (p.board to) to (rook_to from to) in
      let st1 = record st { key = bit_xor st.key king_hop } in
      let half = IsReady-moves keys (board_key keys p.board) s king_hop st st1 h refl refl refl in
      let whole =
        IsReady-moves keys (bit_xor (board_key keys p.board) king_hop) s rook_hop st1
          (castle_state keys us from to p st) half refl refl refl in
      let after : board_key keys (place mt us from to promo p).board
          ≡ bit_xor (bit_xor (board_key keys p.board) king_hop) rook_hop =
        ap (λ q. board_key keys q.board) (place_castling mt us from to promo no_piece p castles).0
        ∙ board_key-exchange keys p from to (king_to from to) (rook_to from to) can in
      rw castles
        (subst (λ b. IsKeyed keys b s (castle_state keys us from to p st)) (sym after) whole.0)

  side_flips : (c : Color) → bit_xor (side_part keys c) keys.side ≡ side_part keys (opponent c)
  side_flips white = zero_xor keys.side
  side_flips black = xor_self keys.side

  -- The key is the one that `set_state` computes.
  abbrev pub HasKey : Position → Type 0
  HasKey p = p.st.key ≡ position_key keys p.placement p.side_to_move p.st

  of_HasKey :
      (q : Placement) (us : Color) (st : StateInfo)
      → IsPlacement q
      → position_key keys q us st
        ≡ bit_xor
            (bit_xor
              (bit_xor (board_key keys q.board) (ep_part keys st.ep_square))
              (side_part keys us))
            (keys.castling st.castling_rights)
  unfolding position_key
  of_HasKey q us st h =
      ap
        (λ k.
          bit_xor (bit_xor (bit_xor k (ep_part keys st.ep_square)) (side_part keys us))
            (keys.castling st.castling_rights))
        (piece_sums-key keys q st h)

  module _ (sl : Sliders) (p : Position) (m : Move) (legal : IsMove p.placement p.side_to_move m)
      (keyed : HasKey p) where
    on_placement : IsPlacement p.placement
    on_placement = elim legal [
      | inl (castles, can) ↦ can.is_placement
      | inr (plain, step) ↦ step.is_placement
    ]

    abbrev after : Placement
    after = placed p.side_to_move m p.placement

    abbrev carried : StateInfo
    carried =
        drop_rights keys (p.castling_rights_mask (from_square m))
          (p.castling_rights_mask (to_square m)) (clear_ep keys (carry keys p.st))

    next-IsKeyed :
        Holds
          (IsKeyed keys (board_key keys after.board) (side_part keys (opponent p.side_to_move)))
          (next_state keys sl
            (move_type m)
            p.side_to_move
            (from_square m)
            (to_square m)
            (promotion_type m)
            p.placement
            carried)
    unfolding placed
    next-IsKeyed =
        let ready =
          subst (λ s. IsReady keys (board_key keys p.placement.board) s carried)
            (side_flips p.side_to_move)
            (prepared_lem keys (board_key keys p.placement.board) (side_part keys p.side_to_move)
              p.st _ _ (keyed ∙ of_HasKey p.placement p.side_to_move p.st on_placement)) in
        elim legal [
          | inl (castles, can) ↦
              castle-IsKeyed sl _ (move_type m) p.side_to_move (from_square m) (to_square m)
                (promotion_type m) p.placement carried castles can ready
          | inr (plain, step) ↦
              step-IsKeyed p.placement (move_type m) p.side_to_move (from_square m) (to_square m)
                (promotion_type m) step sl _ carried plain ready
        ]

    rekeyed :
        (moved : StateInfo) (checkers : ℕ)
        → IsKeyed keys (board_key keys after.board) (side_part keys (opponent p.side_to_move)) moved
        → Holds
            (IsKeyed keys (board_key keys after.board) (side_part keys (opponent p.side_to_move)))
            (set_check_info sl after
              (opponent p.side_to_move)
              (record moved { checkers = checkers }))
    rekeyed moved checkers h =
        Holds-map (λ st. SameKeyed st moved)
          (IsKeyed keys (board_key keys after.board) (side_part keys (opponent p.side_to_move)))
          (set_check_info sl after (opponent p.side_to_move) (record moved { checkers = checkers }))
          (set_check_info-kept sl after (opponent p.side_to_move)
            (record moved { checkers = checkers }))
          (λ st same.
            same.0
            ∙ h
            ∙ ap₂
                (λ e c.
                  bit_xor
                    (bit_xor (bit_xor (board_key keys after.board) (ep_part keys e))
                      (side_part keys (opponent p.side_to_move)))
                    (keys.castling c))
                (sym same.1) (sym same.2))

    child_state-IsKeyed :
        (gives_check : Bool)
        → Holds
            (IsKeyed keys (board_key keys after.board) (side_part keys (opponent p.side_to_move)))
            (child_state keys sl m gives_check p)
    unfolding child_state
    child_state-IsKeyed gives_check =
        let P =
          IsKeyed keys (board_key keys after.board) (side_part keys (opponent p.side_to_move)) in
        Holds-next P P
          (next_state keys sl (move_type m) p.side_to_move (from_square m) (to_square m)
            (promotion_type m) p.placement carried)
          _ next-IsKeyed
          (λ moved keyed_moved.
            Holds-bind P (checkers_after sl gives_check p.side_to_move after) _
              (λ checkers. rekeyed moved checkers keyed_moved))

    -- A move that fits the placement, made on a position with the key that the set-up computes for it,
    -- no piece more than 32 times on the board and both kings there after the move, returns a position
    -- with the key that the set-up computes for that position, whatever the check flag.
    pub do_move-HasKey :
        (gives_check : Bool)
        → Few 32 p.placement
        → HasKings after
        → (q : Position) × (do_move_checked keys sl m gives_check p ≡ some q) × HasKey q
    unfolding set_repetition
    do_move-HasKey gives_check few kings =
        let (st, found) = child_state-some keys sl p m gives_check legal few kings in
        let keyed_st =
          Holds-some
            (IsKeyed keys (board_key keys after.board) (side_part keys (opponent p.side_to_move)))
            (child_state keys sl m gives_check p) (child_state-IsKeyed gives_check) found in
        (
          made keys sl p m st,
          do_move-made keys sl p m gives_check st found,
          keyed_st
              ∙ sym (
                  of_HasKey after (opponent p.side_to_move) (made keys sl p m st).st
                    (unplaced-placed p.placement p.side_to_move m legal).0),
        )

  -- A null move made on a position with the key that the set-up computes for it, with both kings on a
  -- consistent board, returns a position with the key that the set-up computes for that position.
  pub do_null_move-HasKey :
      (sl : Sliders) (p : Position)
      → IsPlacement p.placement
      → HasKey p
      → HasKings p.placement
      → (q : Position) × (do_null_move keys sl p ≡ some q) × HasKey q
  unfolding do_null_move
  do_null_move-HasKey sl p consistent keyed kings =
      let them = opponent p.side_to_move in
      let b = board_key keys p.placement.board in
      let flipped = record p.st { key = bit_xor p.st.key keys.side } in
      let (cleared, no_ep) =
        null-IsReady keys b (side_part keys p.side_to_move) p.st
          (keyed ∙ of_HasKey p.placement p.side_to_move p.st consistent) in
      let left = clear_ep keys flipped in
      let based = record left {
        plies_from_null = 0;
        captured_piece = no_piece;
        checkers = empty;
      } in
      let (st, found) = set_check_info-some sl p.placement kings them based in
      let kept =
        Holds-some (λ st'. SameKeyed st' based) (set_check_info sl p.placement them based)
          (set_check_info-kept sl p.placement them based) found in
      (
        record p {
          st = record st { repetition = pos 0 };
          prev = p.st ∷ p.prev;
          side_to_move = them;
        },
        >>=-some (set_check_info sl p.placement them based) _ found,
        kept.0
            ∙ cleared
            ∙ ap
                (λ s.
                  bit_xor (bit_xor (bit_xor b (ep_part keys left.ep_square)) s)
                    (keys.castling left.castling_rights))
                (side_flips p.side_to_move)
            ∙ ap₂
                (λ e c.
                  bit_xor (bit_xor (bit_xor b (ep_part keys e)) (side_part keys them))
                    (keys.castling c))
                (sym kept.1) (sym kept.2)
            ∙ sym (of_HasKey p.placement them (record st { repetition = pos 0 }) consistent),
      )
