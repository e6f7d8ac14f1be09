-- ===== src/Board/Placement/Exchange.antt =====
-- Two pieces that leave their squares and come back on others, as in castling.
use rfish.Prelude.{◌<◌, ◌≡◌, ◌≢◌, arith, refl, ap, ◌∙◌, ◌==◌, if◌then◌else◌, inl, inr, ◌⊎◌, true}
use native.Mathlib.Decide.{ℕ_discrete}
use rfish.Board.Piece.{no_piece}
use rfish.Board.Square.{Square}
use rfish.Board.Zobrist.{is_real}
use rfish.Board.Placement.{Placement, put_piece, remove_piece}
use rfish.Board.Placement.Writes.{board-put, board-remove}
use rfish.Board.Placement.Contract.{
  IsPlacement, put_piece-IsPlacement, remove_piece-IsPlacement, IsPlacement-unique,
}

-- Two pieces leave `a` and `b` and come back on `x` and `y`: these are empty or left by the two.
pub record CanExchange (p : Placement) (a b x y : Square) : Type 0 where
  pub is_placement : IsPlacement p
  pub fits : (a < 64) × (b < 64) × (x < 64) × (y < 64)
  pub apart_from : a ≢ b
  pub apart_to : x ≢ y
  pub real_a : is_real (p.board a) ≡ true
  pub real_b : is_real (p.board b) ≡ true
  pub free_x : (x ≡ a) ⊎ ((x ≡ b) ⊎ (p.board x ≡ no_piece))
  pub free_y : (y ≡ a) ⊎ ((y ≡ b) ⊎ (p.board y ≡ no_piece))

abbrev pub exchange : Placement → Square → Square → Square → Square → Placement
exchange p a b x y =
    put_piece (p.board b) y (put_piece (p.board a) x (remove_piece b (remove_piece a p)))

module _ (p : Placement) (a b x y : Square) (can : CanExchange p a b x y) where
  board-exchange :
      (i : Square)
      → (exchange p a b x y).board i ≡ (
          if y == i
          then p.board b
          else if x == i
          then p.board a
          else if b == i
          then no_piece
          else if a == i
          then no_piece
          else p.board i)
  board-exchange i =
      let without = remove_piece b (remove_piece a p) in
      board-put (p.board b) y (put_piece (p.board a) x without) i
      ∙ rw (
        board-put (p.board a) x without i,
        board-remove b (remove_piece a p) i,
        board-remove a p i,
      )

  at_x : (exchange p a b x y).board x ≡ p.board a
  at_x = ground (arith, board-exchange x, can.apart_to)

  at_y : (exchange p a b x y).board y ≡ p.board b
  at_y = ground (arith, board-exchange y)

  left : (i : Square) → i ≢ x → i ≢ y → (i ≡ a) ⊎ (i ≡ b) → (exchange p a b x y).board i ≡ no_piece
  left i nx ny at = ground (arith, board-exchange i, nx, ny)

  vacated :
      (i : Square)
      → (i ≡ a) ⊎ (i ≡ b)
      → (i ≡ x) ⊎ ((i ≡ y) ⊎ ((exchange p a b x y).board i ≡ no_piece))
  vacated i at = elim (ℕ_discrete i x) [
    | yes e ↦ inl e
    | no nx ↦ inr (elim (ℕ_discrete i y) [ yes e ↦ inl e | no ny ↦ inr (left i nx ny at) ])
  ]

  abbrev pub without : Placement
  without = remove_piece b (remove_piece a p)

  -- Each of the four writes finds the piece, or the empty square, that it needs.
  pub still_b : (remove_piece a p).board b ≡ p.board b
  still_b = ground (arith, board-remove a p b, can.apart_from)

  pub free_at_x : without.board x ≡ no_piece
  free_at_x = ground (arith, board-remove b (remove_piece a p) x, board-remove a p x, can.free_x)

  pub free_at_y : (put_piece (p.board a) x without).board y ≡ no_piece
  free_at_y = ground (
    arith,
    board-put (p.board a) x without y,
    board-remove b (remove_piece a p) y,
    board-remove a p y,
    can.free_y,
    can.apart_to,
  )

  pub exchange-IsPlacement : IsPlacement (exchange p a b x y)
  exchange-IsPlacement =
      let one_left = remove_piece-IsPlacement p a can.is_placement can.real_a can.fits.0 in
      let both_left =
        remove_piece-IsPlacement (remove_piece a p) b one_left (ap is_real still_b ∙ can.real_b)
          can.fits.1 in
      let one_back =
        put_piece-IsPlacement without (p.board a) x both_left can.real_a can.fits.2 free_at_x in
      put_piece-IsPlacement (put_piece (p.board a) x without) (p.board b) y one_back can.real_b
        can.fits.3 free_at_y

  can_return : CanExchange (exchange p a b x y) x y a b
  can_return = record {
    is_placement = exchange-IsPlacement;
    fits = (can.fits.2, can.fits.3, can.fits.0, can.fits.1);
    apart_from = can.apart_to;
    apart_to = can.apart_from;
    real_a = ap is_real at_x ∙ can.real_a;
    real_b = ap is_real at_y ∙ can.real_b;
    free_x = vacated a (inl refl);
    free_y = vacated b (inr refl);
  }

pub exchange_back :
    (p : Placement) (a b x y : Square)
    → CanExchange p a b x y
    → exchange (exchange p a b x y) x y a b ≡ p
exchange_back p a b x y can =
    let q = exchange p a b x y in
    let back = can_return p a b x y can in
    IsPlacement-unique (exchange q x y a b) p (exchange-IsPlacement q x y a b back) can.is_placement
      (λ i hi. ground (
        arith,
        board-exchange q x y a b back i,
        board-exchange p a b x y can i,
        at_x p a b x y can,
        at_y p a b x y can,
        can.free_x,
        can.free_y,
      ))
