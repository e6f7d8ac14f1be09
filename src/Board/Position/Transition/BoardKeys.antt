-- ===== src/Board/Position/Transition/BoardKeys.antt =====
-- The board's part of the key after what a move writes to the board.
use rfish.Prelude.{◌<◌, ◌≡◌, arith, refl, ap, ap₂, ◌∙◌}
use rfish.Prelude.{true, false, if◌then◌else◌, Bool-cases, inl, inr, bit_xor}
use rfish.Prelude.Bits.{digit_ext, digit-bit_xor, xor_assoc}
use rfish.Board.Piece.{Color, Piece, PieceType, no_piece, is_none, new as new_piece}
use rfish.Board.Square.{Square}
use rfish.Board.Move.{MoveType}
use rfish.Board.Zobrist.{Tables, Key, is_real}
use rfish.Board.Placement.{Placement, put_piece, remove_piece, swap_piece}
use rfish.Board.Placement.Writes.{board-remove}
use rfish.Board.Placement.Exchange.{CanExchange, exchange, without, still_b, free_at_x, free_at_y}
use rfish.Board.Position.{is_type}
use rfish.Board.Position.Moves.{
  captured_by, capture_square, take_captured, promotes, promote, place,
}
use rfish.Board.Position.Moves.RoundTrip.{
  IsStep, cleared_lem, moved_lem, place_plain, on_capture_square, real_victim, cleared, moved,
}
use rfish.Board.Position.Setup.Keys.{board_key, board_key-put, board_key-remove, board_key-move}
use rfish.Board.Position.State.{hop}
use rfish.Board.Position.State.Slots.{promote_passes, promote_stays}
use rfish.Board.Position.State.Total.{never_promotes}

regroup :
    (b k l m n : Key)
    → bit_xor (bit_xor (bit_xor (bit_xor b k) l) m) n
      ≡ bit_xor (bit_xor b (bit_xor k m)) (bit_xor l n)
regroup b k l m n = digit_ext _ _ (λ i. omega (
  arith,
  digit-bit_xor i (bit_xor (bit_xor (bit_xor b k) l) m) n,
  digit-bit_xor i (bit_xor (bit_xor b k) l) m,
  digit-bit_xor i (bit_xor b k) l,
  digit-bit_xor i b k,
  digit-bit_xor i (bit_xor b (bit_xor k m)) (bit_xor l n),
  digit-bit_xor i b (bit_xor k m),
  digit-bit_xor i k m,
  digit-bit_xor i l n,
))

module _ (keys : Tables) where
  -- The board's part of the key after the writes of a castling move.
  pub board_key-exchange :
      (p : Placement) (a b x y : Square)
      → CanExchange p a b x y
      → board_key keys (exchange p a b x y).board
        ≡ bit_xor
            (bit_xor (board_key keys p.board) (hop keys (p.board a) a x))
            (hop keys (p.board b) b y)
  board_key-exchange p a b x y can =
      let q = without p a b x y can in
      let real_b = ap is_real (still_b p a b x y can) ∙ can.real_b in
      board_key-put keys (put_piece (p.board a) x q) (p.board b) y can.fits.3 can.real_b
        (free_at_y p a b x y can)
      ∙ ap (λ k. bit_xor k (keys.psq (p.board b) y))
          (board_key-put keys q (p.board a) x can.fits.2 can.real_a (free_at_x p a b x y can)
            ∙ ap (λ k. bit_xor k (keys.psq (p.board a) x))
                (board_key-remove keys (remove_piece a p) b can.fits.1 real_b
                  ∙ ap₂ bit_xor (board_key-remove keys p a can.fits.0 can.real_a)
                      (ap (λ v. keys.psq v b) (still_b p a b x y can))))
      ∙ regroup (board_key keys p.board) (keys.psq (p.board a) a) (keys.psq (p.board b) b)
          (keys.psq (p.board a) x) (keys.psq (p.board b) y)

  board_key-swap :
      (p : Placement) (sq : Square) (pc : Piece)
      → sq < 64
      → is_real (p.board sq) ≡ true
      → is_real pc ≡ true
      → board_key keys (swap_piece sq pc p).board
        ≡ bit_xor (board_key keys p.board) (bit_xor (keys.psq (p.board sq) sq) (keys.psq pc sq))
  unfolding swap_piece
  board_key-swap p sq pc hs real other =
      let gone : (remove_piece sq p).board sq ≡ no_piece = ground (arith, board-remove sq p sq) in
      board_key-put keys (remove_piece sq p) pc sq hs other gone
      ∙ ap (λ k. bit_xor k (keys.psq pc sq)) (board_key-remove keys p sq hs real)
      ∙ xor_assoc (board_key keys p.board) (keys.psq (p.board sq) sq) (keys.psq pc sq)

  module _ (p : Placement) (mt : MoveType) (us : Color) (from to : Square) (promo : PieceType)
      (step : IsStep p mt us from to promo) where
    abbrev pub b_cleared : Key
    b_cleared =
        if is_none (captured_by mt us to p)
        then board_key keys p.board
        else bit_xor (board_key keys p.board)
            (keys.psq (captured_by mt us to p) (capture_square mt us to))

    board_key-cleared : board_key keys (cleared p mt us from to promo step).board ≡ b_cleared
    unfolding take_captured
    board_key-cleared =
        let csq = capture_square mt us to in
        elim (Bool-cases (is_none (p.board csq))) [
          | inl none_there ↦ rw (on_capture_square p mt us from to promo step, none_there) refl
          | inr some_victim ↦
              rw (on_capture_square p mt us from to promo step, some_victim)
                (board_key-remove keys p csq step.capture_fits
                  (real_victim p mt us from to promo step some_victim))
        ]

    board_key-moved :
        board_key keys (moved p mt us from to promo step).board
        ≡ bit_xor b_cleared (hop keys (p.board from) from to)
    board_key-moved =
        let (consistent, same, free, back) = cleared_lem p mt us from to promo step in
        board_key-move keys (cleared p mt us from to promo step) from to step.from_fits step.to_fits
          step.elsewhere (ap is_real same ∙ step.mover_real) free
        ∙ ap₂ bit_xor board_key-cleared (ap (λ v. hop keys v from to) same)

    board_key-promote :
        (q : Placement)
        → q.board to ≡ p.board from
        → board_key keys (promote mt us from to promo (p.board from) q).board ≡ (
            if promotes mt (p.board from) from to
            then bit_xor
                (board_key keys q.board)
                (bit_xor (keys.psq (p.board from) to) (keys.psq (new_piece us promo) to))
            else board_key keys q.board)
    board_key-promote q there = elim (Bool-cases (promotes mt (p.board from) from to)) [
      | inr stays ↦
          ap (λ r. board_key keys r.board)
            (promote_stays mt us from to promo (p.board from) q stays)
          ∙ rw stays refl
      | inl passes ↦
          ap (λ r. board_key keys r.board)
            (promote_passes mt us from to promo (p.board from) q passes)
          ∙ board_key-swap q to (new_piece us promo) step.to_fits
              (ap is_real there ∙ step.mover_real)
              (elim step.pawn_promotes [
                | inl other ↦ absurd (never_promotes mt from to (p.board from) passes other)
                | inr (own, again, real) ↦ real
              ])
          ∙ ap
              (λ v.
                bit_xor (board_key keys q.board)
                  (bit_xor (keys.psq v to) (keys.psq (new_piece us promo) to)))
              there
          ∙ rw passes refl
    ]

    pub board_key-step :
        is_type mt MoveType.castling ≡ false
        → board_key keys (place mt us from to promo p).board ≡ (
            if promotes mt (p.board from) from to
            then bit_xor
                (bit_xor b_cleared (hop keys (p.board from) from to))
                (bit_xor (keys.psq (p.board from) to) (keys.psq (new_piece us promo) to))
            else bit_xor b_cleared (hop keys (p.board from) from to))
    board_key-step plain =
        let q = moved p mt us from to promo step in
        ap (λ r. board_key keys r.board) (place_plain mt us from to promo p plain)
        ∙ board_key-promote q (moved_lem p mt us from to promo step).1
        ∙ ap
            (λ k.
              if promotes mt (p.board from) from to
              then bit_xor k
                  (bit_xor (keys.psq (p.board from) to) (keys.psq (new_piece us promo) to))
              else k)
            board_key-moved
