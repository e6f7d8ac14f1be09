-- ===== src/Board/Position/Setup/Keys.antt =====
-- The position key as a sum over the squares of the board, and the writes to the board as its updates.
use rfish.Prelude.{ℕ, zero, suc, ◌+◌, ◌<◌, ◌≡◌, ◌≢◌, arith, refl, ap, ap₂, sym, ◌∙◌}
use rfish.Prelude.{Bool, true, ◌==◌, if◌then◌else◌, Bool-cases, inl, inr, bit_xor, update}
use rfish.Prelude.Bits.{xor_below, xor_below_ext, xor_below_change, xor_zero, zero_xor, xor_assoc}
use rfish.Board.Piece.{Piece, no_piece}
use rfish.Board.Square.{Square}
use rfish.Board.Zobrist.{Tables, Key, is_real}
use rfish.Board.Bitboard.{contains}
use rfish.Board.Bitboard.Pop.{ascending, squares-ascending}
use rfish.Board.Placement.{Placement, put_piece, remove_piece, move_piece, occupied}
use rfish.Board.Placement.Contract.{IsPlacement}
use rfish.Board.Position.{StateInfo}
use rfish.Board.Position.Setup.{add_pieces, add_piece, no_sums, piece_sums}

module _ (keys : Tables) where
  abbrev cell : Piece → Square → Key
  cell pc sq = if pc == 0 then 0 else keys.psq pc sq

  unfoldable pub board_key : (Square → Piece) → Key
  unfolding xor_below
  board_key board = xor_below 64 (λ sq. cell (board sq) sq)

  abbrev on_board : (Square → Piece) → (Square → Bool) → Square → Key
  on_board board on sq = if on sq then keys.psq (board sq) sq else 0

  next_entry : (f : ℕ → ℕ) (base : ℕ) → xor_below (base + 1) f ≡ bit_xor (xor_below base f) (f base)
  unfolding xor_below
  next_entry f base = let next : base + 1 ≡ suc base = omega arith in ap (λ n. xor_below n f) next

  add_pieces-key :
      (board : Square → Piece) (w base : ℕ) (on : Square → Bool) (st : StateInfo)
      → st.key ≡ xor_below base (on_board board on)
      → (add_pieces keys board (ascending w base on) st).key
        ≡ xor_below (base + w) (on_board board on)
  unfolding add_pieces ascending
  add_pieces-key board zero base on st h =
      let none_left : base ≡ base + 0 = omega arith in
      h ∙ ap (λ n. xor_below n (on_board board on)) none_left
  add_pieces-key board (suc w) base on st h =
      let f = on_board board on in
      let order : base + 1 + w ≡ base + suc w = omega arith in
      elim (Bool-cases (on base)) [
        | inl there ↦
            let here : f base ≡ keys.psq (board base) base = rw there refl in
            let st' = add_piece keys (board base) base st in
            let sum : st'.key ≡ xor_below (base + 1) f =
              ap (λ k. bit_xor k (keys.psq (board base) base)) h
              ∙ ap (bit_xor (xor_below base f)) (sym here)
              ∙ sym (next_entry f base) in
            rw there (add_pieces-key board w (base + 1) on st' sum ∙ ap (λ n. xor_below n f) order)
        | inr gone ↦
            let here : f base ≡ 0 = rw gone refl in
            let sum : st.key ≡ xor_below (base + 1) f =
              h
              ∙ sym (xor_zero (xor_below base f))
              ∙ ap (bit_xor (xor_below base f)) (sym here)
              ∙ sym (next_entry f base) in
            rw gone (add_pieces-key board w (base + 1) on st sum ∙ ap (λ n. xor_below n f) order)
      ]

  -- The loop over the occupied squares gives the sum over the board.
  pub piece_sums-key :
      (p : Placement) (st : StateInfo)
      → IsPlacement p
      → (piece_sums keys p st).key ≡ board_key p.board
  unfolding piece_sums board_key
  piece_sums-key p st h =
      ap (λ l. (add_pieces keys p.board l (no_sums keys st)).key)
        (squares-ascending (occupied p) (h.types 0).fits)
      ∙ add_pieces-key p.board 64 0 (contains (occupied p)) (no_sums keys st) refl
      ∙ xor_below_ext 64 (on_board p.board (contains (occupied p))) (λ sq. cell (p.board sq) sq)
          (λ sq hs. ground (arith, (h.types 0).same sq hs))

  -- A write to one square.
  board_key-update :
      (board : Square → Piece) (sq : Square) (pc : Piece)
      → sq < 64
      → board_key (update board sq pc)
        ≡ bit_xor (board_key board) (bit_xor (cell (board sq) sq) (cell pc sq))
  unfolding board_key
  board_key-update board sq pc hs =
      let here : update board sq pc sq ≡ pc = ground arith in
      xor_below_change 64 (λ i. cell (board i) i) (λ i. cell (update board sq pc i) i) sq hs
        (λ i ne. ground (arith, ne))
      ∙ ap
          (λ v.
            bit_xor (xor_below 64 (λ i. cell (board i) i))
              (bit_xor (cell (board sq) sq) (cell v sq)))
          here

  module _ (p : Placement) where
    pub board_key-put :
        (pc : Piece) (sq : Square)
        → sq < 64
        → is_real pc ≡ true
        → p.board sq ≡ no_piece
        → board_key (put_piece pc sq p).board ≡ bit_xor (board_key p.board) (keys.psq pc sq)
    unfolding put_piece
    board_key-put pc sq hs real free =
        let old : cell (p.board sq) sq ≡ 0 = ground (arith, free) in
        let new : cell pc sq ≡ keys.psq pc sq = ground (arith, real) in
        board_key-update p.board sq pc hs
        ∙ ap (bit_xor (board_key p.board)) (ap₂ bit_xor old new ∙ zero_xor (keys.psq pc sq))

    pub board_key-remove :
        (sq : Square)
        → sq < 64
        → is_real (p.board sq) ≡ true
        → board_key (remove_piece sq p).board
          ≡ bit_xor (board_key p.board) (keys.psq (p.board sq) sq)
    unfolding remove_piece
    board_key-remove sq hs real =
        let old : cell (p.board sq) sq ≡ keys.psq (p.board sq) sq = ground (arith, real) in
        board_key-update p.board sq no_piece hs
        ∙ ap (bit_xor (board_key p.board))
            (ap (λ k. bit_xor k (cell no_piece sq)) old ∙ xor_zero (keys.psq (p.board sq) sq))

    pub board_key-move :
        (from to : Square)
        → from < 64
        → to < 64
        → from ≢ to
        → is_real (p.board from) ≡ true
        → p.board to ≡ no_piece
        → board_key (move_piece from to p).board
          ≡ bit_xor
              (board_key p.board)
              (bit_xor (keys.psq (p.board from) from) (keys.psq (p.board from) to))
    unfolding move_piece
    board_key-move from to hf ht ne real free =
        let left = update p.board from no_piece in
        let pc = p.board from in
        let leaves : cell pc from ≡ keys.psq pc from = ground (arith, real) in
        let enters : cell pc to ≡ keys.psq pc to = ground (arith, real) in
        let was : cell (left to) to ≡ 0 = ground (arith, free, ne) in
        board_key-update left to pc ht
        ∙ ap₂ bit_xor
            (board_key-update p.board from no_piece hf
              ∙ ap (bit_xor (board_key p.board))
                  (ap (λ k. bit_xor k (cell no_piece from)) leaves ∙ xor_zero (keys.psq pc from)))
            (ap₂ bit_xor was enters ∙ zero_xor (keys.psq pc to))
        ∙ xor_assoc (board_key p.board) (keys.psq pc from) (keys.psq pc to)
