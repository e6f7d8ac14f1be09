-- ===== src/Board/Position/Moves/RoundTrip.antt =====
-- Undoing a move on the placement gives the placement before it back.
use rfish.Prelude.{◌<◌, ◌≡◌, ◌≢◌, arith, refl, ap, sym, subst, ◌∙◌}
use rfish.Prelude.{true, false, ◌&&◌, ◌==◌, Bool-cases, inl, inr, ◌⊎◌}
use rfish.Board.Piece.{Color, PieceType, Piece, opponent, no_piece, is_none, new as new_piece}
use rfish.Board.Piece.{pawn}
use rfish.Board.Square.{Square, apart, shift, pawn_push}
use rfish.Board.Move.{MoveType, Move, move_type, from_square, to_square, promotion_type}
use rfish.Board.Zobrist.{is_real}
use rfish.Board.Placement.{Placement, put_piece, remove_piece, move_piece, swap_piece}
use rfish.Board.Placement.Contract.{
  IsPlacement, put_piece-IsPlacement, remove_piece-IsPlacement, move_piece-IsPlacement,
}
use rfish.Board.Placement.Writes.{
  board-remove, board-move, put_piece-remove_piece, move_piece-move_piece, swap_piece-swap_piece,
}
use rfish.Board.Placement.Exchange.{CanExchange, exchange-IsPlacement, exchange_back}
use rfish.Board.Position.{is_type}
use rfish.Board.Position.Moves.{
  king_to, rook_to, castle, uncastle, capture_square, captured_by, take_captured, promotes, promote,
  captured, place, placed, unpromote, put_captured, unplace, unplaced, is_pawn,
}

-- A castling move: its two pieces stand on different squares, and the squares that they move to are
-- empty or the movers' own.
abbrev pub IsCastling : Placement → Square → Square → Type 0
IsCastling p from to = CanExchange p from to (king_to from to) (rook_to from to)

castle-IsPlacement :
    (p : Placement) (from to : Square) → IsCastling p from to → IsPlacement (castle from to p)
unfolding castle
castle-IsPlacement p from to can =
    exchange-IsPlacement p from to (king_to from to) (rook_to from to) can

uncastle-castle :
    (p : Placement) (from to : Square)
    → IsCastling p from to
    → uncastle from to (castle from to p) ≡ p
unfolding uncastle castle
uncastle-castle p from to can = exchange_back p from to (king_to from to) (rook_to from to) can

-- A move of any other type: a real piece moves to another square, which is empty once the victim, if
-- there is one on its square, is gone; a double push passes over a
-- square of the board, and a promotion is of a pawn of the mover's that steps.
pub record IsStep (p : Placement) (mt : MoveType) (us : Color) (from to : Square)
    (promo : PieceType) : Type 0 where
  pub is_placement : IsPlacement p
  pub from_fits : from < 64
  pub to_fits : to < 64
  pub capture_fits : capture_square mt us to < 64
  pub elsewhere : from ≢ to
  pub mover_stays : capture_square mt us to ≢ from
  pub mover_real : is_real (p.board from) ≡ true
  pub target_free : (capture_square mt us to ≡ to) ⊎ (p.board to ≡ no_piece)
  pub double_on_board :
      ((is_pawn (p.board from) && apart to from == 16) ≡ false)
      ⊎ (shift to (pawn_push (opponent us)) < 64)
  pub pawn_promotes :
      (is_type mt MoveType.promotion ≡ false)
      ⊎ ((p.board from ≡ new_piece us pawn)
          × (promotes mt (p.board from) from to ≡ true)
          × (is_real (new_piece us promo) ≡ true))

-- A replacement on the target square, if there is one, and back.
pub promoted_lem :
    (mt : MoveType) (us : Color) (from to : Square) (promo : PieceType) (pc : Piece) (q : Placement)
    → IsPlacement q
    → to < 64
    → is_real pc ≡ true
    → q.board to ≡ pc
    → (is_type mt MoveType.promotion ≡ false)
      ⊎ ((pc ≡ new_piece us pawn)
          × (promotes mt pc from to ≡ true)
          × (is_real (new_piece us promo) ≡ true))
    → IsPlacement (promote mt us from to promo pc q)
      × (unpromote mt us to (promote mt us from to promo pc q) ≡ q)
unfolding promote unpromote swap_piece
promoted_lem mt us from to promo pc q h ht real there (inl other) =
    let no_change : promotes mt pc from to ≡ false = ground (arith, other) in
    rw (no_change, other) (h, refl)
promoted_lem mt us from to promo pc q h ht real there (inr (own, passes, real_promo)) =
    let on_target : is_real (q.board to) ≡ true = ap is_real there ∙ real in
    let typed : is_type mt MoveType.promotion ≡ true = ground (arith, passes) in
    rw (passes, typed)
      (
        put_piece-IsPlacement (remove_piece to q) (new_piece us promo) to
            (remove_piece-IsPlacement q to h on_target ht) real_promo ht
            (ground (arith, board-remove to q to)),
        ap (λ v. put_piece v to (remove_piece to (swap_piece to (new_piece us promo) q)))
              (sym own ∙ sym there)
            ∙ swap_piece-swap_piece q to (new_piece us promo) h ht on_target real_promo,
      )

-- The two halves of a move that does not castle, in order.
pub place_plain :
    (mt : MoveType) (us : Color) (from to : Square) (promo : PieceType) (p : Placement)
    → is_type mt MoveType.castling ≡ false
    → place mt us from to promo p
      ≡ promote mt us from to promo (p.board from) (move_piece from to (take_captured mt us to p))
unfolding place
place_plain mt us from to promo p plain = rw plain refl

unplace_plain :
    (mt : MoveType) (us : Color) (from to : Square) (captured : Piece) (p : Placement)
    → is_type mt MoveType.castling ≡ false
    → unplace mt us from to captured p
      ≡ put_captured mt us to captured (move_piece to from (unpromote mt us to p))
unfolding unplace
unplace_plain mt us from to captured p plain = rw plain refl

module _ (p : Placement) (mt : MoveType) (us : Color) (from to : Square) (promo : PieceType)
    (step : IsStep p mt us from to promo) where
  -- The square that a capture clears holds the captured piece.
  pub on_capture_square : captured_by mt us to p ≡ p.board (capture_square mt us to)
  unfolding captured_by capture_square
  on_capture_square = elim (Bool-cases (is_type mt MoveType.en_passant)) [
    | inl e ↦ rw e
    | inr e ↦ rw e
  ]

  pub real_victim :
      is_none (p.board (capture_square mt us to)) ≡ false
      → is_real (p.board (capture_square mt us to)) ≡ true
  real_victim some_victim = ground (arith, step.is_placement.IsPiece (capture_square mt us to))

  abbrev pub cleared : Placement
  cleared = take_captured mt us to p

  pub cleared_lem :
      IsPlacement cleared
      × (cleared.board from ≡ p.board from)
      × (cleared.board to ≡ no_piece)
      × (put_captured mt us to (captured_by mt us to p) cleared ≡ p)
  unfolding take_captured put_captured
  cleared_lem =
      let csq = capture_square mt us to in
      elim (Bool-cases (is_none (p.board csq))) [
        | inl none_there ↦
            rw (on_capture_square, none_there)
              (
                step.is_placement,
                refl,
                elim step.target_free [
                  | inl e ↦ ap p.board (sym e) ∙ ground arith
                  | inr free ↦ free
                ],
                refl,
              )
        | inr some_victim ↦
            let real = real_victim some_victim in
            rw (on_capture_square, some_victim)
              (
                remove_piece-IsPlacement p csq step.is_placement real step.capture_fits,
                ground (arith, board-remove csq p from, step.mover_stays),
                ground (arith, board-remove csq p to, step.target_free),
                put_piece-remove_piece p step.is_placement csq step.capture_fits real,
              )
      ]

  abbrev pub moved : Placement
  moved = move_piece from to cleared

  still_real : is_real (cleared.board from) ≡ true
  still_real = ap is_real cleared_lem.1 ∙ step.mover_real

  pub moved_lem :
      IsPlacement moved × (moved.board to ≡ p.board from) × (move_piece to from moved ≡ cleared)
  moved_lem = (
    move_piece-IsPlacement cleared from to cleared_lem.0 still_real step.from_fits step.to_fits
        step.elsewhere cleared_lem.2,
    ground (arith, board-move from to cleared to, cleared_lem.1),
    move_piece-move_piece cleared cleared_lem.0 from to step.from_fits step.to_fits step.elsewhere
        still_real cleared_lem.2,
  )

  step_back :
      is_type mt MoveType.castling ≡ false
      → IsPlacement (place mt us from to promo p)
        × (unplace mt us from to (captured_by mt us to p) (place mt us from to promo p) ≡ p)
  step_back plain =
      let (consistent, restored) =
        promoted_lem mt us from to promo (p.board from) moved moved_lem.0 step.to_fits
          step.mover_real moved_lem.1 step.pawn_promotes in
      let forward = place_plain mt us from to promo p plain in
      (
        subst IsPlacement (sym forward) consistent,
        ap (unplace mt us from to (captured_by mt us to p)) forward
            ∙ unplace_plain mt us from to (captured_by mt us to p) _ plain
            ∙ ap (λ q. put_captured mt us to (captured_by mt us to p) (move_piece to from q))
                restored
            ∙ ap (put_captured mt us to (captured_by mt us to p)) moved_lem.2
            ∙ cleared_lem.3,
      )

pub place_castling :
    (mt : MoveType) (us : Color) (from to : Square) (promo : PieceType) (captured : Piece)
    (p : Placement)
    → is_type mt MoveType.castling ≡ true
    → (place mt us from to promo p ≡ castle from to p)
      × (unplace mt us from to captured p ≡ uncastle from to p)
unfolding place unplace
place_castling mt us from to promo captured p castles = rw castles (refl, refl)

castled_back :
    (mt : MoveType) (us : Color) (from to : Square) (promo : PieceType) (captured : Piece)
    (p : Placement)
    → is_type mt MoveType.castling ≡ true
    → IsCastling p from to
    → IsPlacement (place mt us from to promo p)
      × (unplace mt us from to captured (place mt us from to promo p) ≡ p)
castled_back mt us from to promo captured p castles can =
    let forward = (place_castling mt us from to promo captured p castles).0 in
    (
      subst IsPlacement (sym forward) (castle-IsPlacement p from to can),
      ap (unplace mt us from to captured) forward
          ∙ (place_castling mt us from to promo captured (castle from to p) castles).1
          ∙ uncastle-castle p from to can,
    )

captured_plain :
    (p : Placement) (us : Color) (m : Move)
    → is_type (move_type m) MoveType.castling ≡ false
    → captured us m p ≡ captured_by (move_type m) us (to_square m) p
unfolding captured
captured_plain p us m plain = rw plain refl

-- What move generation guarantees of a move of `us`, as far as the placement goes.
abbrev pub IsMove : Placement → Color → Move → Type 0
IsMove p us m =
    ((is_type (move_type m) MoveType.castling ≡ true) × IsCastling p (from_square m) (to_square m))
    ⊎ ((is_type (move_type m) MoveType.castling ≡ false)
        × IsStep p (move_type m) us (from_square m) (to_square m) (promotion_type m))

-- Made and undone, such a move restores the placement, and the sets and the counts stay true of the
-- board between.
pub unplaced-placed :
    (p : Placement) (us : Color) (m : Move)
    → IsMove p us m
    → IsPlacement (placed us m p) × (unplaced us m (captured us m p) (placed us m p) ≡ p)
unfolding placed unplaced
unplaced-placed p us m (inl (castles, can)) =
    castled_back (move_type m) us (from_square m) (to_square m) (promotion_type m) (captured us m p)
      p castles can
unplaced-placed p us m (inr (plain, step)) =
    let (consistent, restored) =
      step_back p (move_type m) us (from_square m) (to_square m) (promotion_type m) step plain in
    (consistent, ap (λ c. unplaced us m c (placed us m p)) (captured_plain p us m plain) ∙ restored)
