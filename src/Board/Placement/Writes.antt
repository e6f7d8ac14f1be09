-- ===== src/Board/Placement/Writes.antt =====
-- The board after each write, and the writes that undo one another.
use rfish.Prelude.{◌<◌, ◌≡◌, ◌≢◌, arith, refl, ap, sym, ◌∙◌, true, ◌==◌, if◌then◌else◌}
use rfish.Board.Piece.{Piece, no_piece}
use rfish.Board.Square.{Square}
use rfish.Board.Zobrist.{is_real}
use rfish.Board.Placement.{Placement, put_piece, remove_piece, move_piece, swap_piece}
use rfish.Board.Placement.Contract.{
  IsPlacement, put_piece-IsPlacement, remove_piece-IsPlacement, move_piece-IsPlacement,
  IsPlacement-unique,
}

pub board-put :
    (pc : Piece) (sq : Square) (p : Placement) (i : Square)
    → (put_piece pc sq p).board i ≡ (if sq == i then pc else p.board i)
unfolding put_piece
board-put pc sq p i = refl

pub board-remove :
    (sq : Square) (p : Placement) (i : Square)
    → (remove_piece sq p).board i ≡ (if sq == i then no_piece else p.board i)
unfolding remove_piece
board-remove sq p i = refl

pub board-move :
    (from to : Square) (p : Placement) (i : Square)
    → (move_piece from to p).board i
      ≡ (if to == i then p.board from else if from == i then no_piece else p.board i)
unfolding move_piece
board-move from to p i = refl

module _ (p : Placement) (h : IsPlacement p) where
  -- Putting a removed piece back restores the placement.
  pub put_piece-remove_piece :
      (sq : Square)
      → sq < 64
      → is_real (p.board sq) ≡ true
      → put_piece (p.board sq) sq (remove_piece sq p) ≡ p
  put_piece-remove_piece sq hs real =
      let gone : (remove_piece sq p).board sq ≡ no_piece = ground (arith, board-remove sq p sq) in
      IsPlacement-unique _ p
        (put_piece-IsPlacement (remove_piece sq p) (p.board sq) sq
          (remove_piece-IsPlacement p sq h real hs) real hs gone)
        h
        (λ i hi.
          ground (arith, board-put (p.board sq) sq (remove_piece sq p) i, board-remove sq p i))

  -- Removing a piece from the empty square that it was put on restores the placement.
  remove_piece-put_piece :
      (pc : Piece) (sq : Square)
      → sq < 64
      → is_real pc ≡ true
      → p.board sq ≡ no_piece
      → remove_piece sq (put_piece pc sq p) ≡ p
  remove_piece-put_piece pc sq hs real free =
      let there : (put_piece pc sq p).board sq ≡ pc = ground (arith, board-put pc sq p sq) in
      IsPlacement-unique _ p
        (remove_piece-IsPlacement (put_piece pc sq p) sq
          (put_piece-IsPlacement p pc sq h real hs free) (ap is_real there ∙ real) hs)
        h (λ i hi. ground (arith, board-remove sq (put_piece pc sq p) i, board-put pc sq p i, free))

  -- Moving a piece back restores the placement.
  pub move_piece-move_piece :
      (from to : Square)
      → from < 64
      → to < 64
      → from ≢ to
      → is_real (p.board from) ≡ true
      → p.board to ≡ no_piece
      → move_piece to from (move_piece from to p) ≡ p
  move_piece-move_piece from to hf ht ne real free =
      let q = move_piece from to p in
      let there : q.board to ≡ p.board from = ground (arith, board-move from to p to) in
      let gone : q.board from ≡ no_piece = ground (arith, board-move from to p from, ne) in
      IsPlacement-unique _ p
        (move_piece-IsPlacement q to from (move_piece-IsPlacement p from to h real hf ht ne free)
          (ap is_real there ∙ real) ht hf (λ e. ne (sym e)) gone)
        h (λ i hi. ground (arith, board-move to from q i, board-move from to p i, there, free, ne))

-- Replacing a piece and then the replacement by it restores the placement.
pub swap_piece-swap_piece :
    (p : Placement) (sq : Square) (pc : Piece)
    → IsPlacement p
    → sq < 64
    → is_real (p.board sq) ≡ true
    → is_real pc ≡ true
    → swap_piece sq (p.board sq) (swap_piece sq pc p) ≡ p
unfolding swap_piece
swap_piece-swap_piece p sq pc h hs real other =
    let removed = remove_piece-IsPlacement p sq h real hs in
    let gone : (remove_piece sq p).board sq ≡ no_piece = ground (arith, board-remove sq p sq) in
    ap (put_piece (p.board sq) sq)
      (remove_piece-put_piece (remove_piece sq p) removed pc sq hs other gone)
    ∙ put_piece-remove_piece p h sq hs real
