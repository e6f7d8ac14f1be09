-- ===== src/Board/Placement/Planes.antt =====
-- One of the sets kept beside the board: it holds the squares whose piece passes a test, and each write
-- to the board has its write to the set.
use rfish.Prelude.{ℕ, ◌^◌, ◌<◌, ◌≡◌, ◌≢◌, arith, ap, sym, refl, ◌∙◌}
use rfish.Prelude.{Bool, false, ◌==◌, if◌then◌else◌, bit_or, bit_xor, update, Bool-cases, inl, inr}
use rfish.Prelude.Bits.{
  digit_ext, digit-lt, digit-bit_or, digit-bit_xor, digit-pow, digit_past, lt-pow_of_digits,
}
use rfish.Board.Piece.{Piece, no_piece}
use rfish.Board.Square.{Square}
use rfish.Board.Bitboard.{Bitboard, contains, set, toggle, from_square}
use rfish.Board.Bitboard.Members.{contains_updates, contains_ext}

-- A word of 64 bits whose squares are the ones that pass.
pub record IsPlane (holds : Square → Bool) (b : Bitboard) : Type 0 where
  pub fits : b < 2 ^ 64
  pub same : (sq : Square) → sq < 64 → contains b sq ≡ holds sq

pub IsPlane-unique :
    (holds : Square → Bool) (a b : Bitboard) → IsPlane holds a → IsPlane holds b → a ≡ b
IsPlane-unique holds a b ha hb =
    contains_ext a b ha.fits hb.fits (λ i h. rw (ha.same i h, hb.same i h))

set-fits : (b sq : ℕ) → b < 2 ^ 64 → sq < 64 → set b sq < 2 ^ 64
unfolding set
set-fits b sq hb hs =
    lt-pow_of_digits 64 (bit_or b (2 ^ sq)) (λ i past.
      ground (arith, digit-bit_or i b (2 ^ sq), digit-pow sq i, digit_past 64 i b hb past))

pub toggle-fits : (b sq : ℕ) → b < 2 ^ 64 → sq < 64 → toggle b sq < 2 ^ 64
unfolding toggle
toggle-fits b sq hb hs = lt-pow_of_digits 64 (bit_xor b (2 ^ sq)) (λ i past.
    ground (arith, digit-bit_xor i b (2 ^ sq), digit-pow sq i, digit_past 64 i b hb past))

-- Two toggles at once.
toggle_both :
    (b x y : ℕ) → x ≢ y → bit_xor b (bit_or (from_square x) (from_square y)) ≡ toggle (toggle b x) y
unfolding toggle from_square
toggle_both b x y ne = digit_ext _ _ (λ i. ground (
  arith,
  digit-bit_xor i b (bit_or (2 ^ x) (2 ^ y)),
  digit-bit_or i (2 ^ x) (2 ^ y),
  digit-bit_xor i (bit_xor b (2 ^ x)) (2 ^ y),
  digit-bit_xor i b (2 ^ x),
  digit-pow x i,
  digit-pow y i,
  digit-lt b i,
  ne,
))

module _ (f : Piece → Bool) (none_fails : f no_piece ≡ false) where
  update_test :
      (board : Square → Piece) (sq v i : ℕ)
      → f (update board sq v i) ≡ (if sq == i then f v else f (board i))
  update_test board sq v i = elim (Bool-cases (sq == i)) [ inl e ↦ rw e | inr e ↦ rw e ]

  at_square :
      (board : Square → Piece) (x i : ℕ) {v : Piece} → board x ≡ v → x ≡ i → f (board i) ≡ f v
  at_square board x i h e = ap (λ y. f (board y)) (sym e) ∙ ap f h

  pub IsPlane-put :
      (board : Square → Piece) (b : Bitboard) (pc : Piece) (sq : Square)
      → IsPlane (λ x. f (board x)) b
      → sq < 64
      → board sq ≡ no_piece
      → IsPlane (λ x. f (update board sq pc x)) (if f pc then set b sq else b)
  IsPlane-put board b pc sq h hs free = elim (Bool-cases (f pc)) [
    | inl passes ↦ rw passes (record {
      fits = set-fits b sq h.fits hs;
      same = λ i hi. ground (
        arith,
        (contains_updates b sq i hs hi).0,
        update_test board sq pc i,
        h.same i hi,
        passes,
      );
    })
    | inr fails ↦ rw fails (record {
      fits = h.fits;
      same = λ i hi. ground (
        arith,
        update_test board sq pc i,
        h.same i hi,
        at_square board sq i free,
        none_fails,
        fails,
      );
    })
  ]

  pub IsPlane-remove :
      (board : Square → Piece) (b : Bitboard) (sq : Square)
      → IsPlane (λ x. f (board x)) b
      → sq < 64
      → IsPlane (λ x. f (update board sq no_piece x)) (if f (board sq) then toggle b sq else b)
  IsPlane-remove board b sq h hs = elim (Bool-cases (f (board sq))) [
    | inl passes ↦ rw passes (record {
      fits = toggle-fits b sq h.fits hs;
      same = λ i hi. ground (
        arith,
        (contains_updates b sq i hs hi).2,
        update_test board sq no_piece i,
        h.same i hi,
        at_square board sq i (refl {a = board sq}),
        none_fails,
        passes,
      );
    })
    | inr fails ↦ rw fails (record {
      fits = h.fits;
      same = λ i hi. ground (
        arith,
        update_test board sq no_piece i,
        h.same i hi,
        at_square board sq i (refl {a = board sq}),
        none_fails,
        fails,
      );
    })
  ]

  -- A move is a removal and a put of the same piece.
  pub IsPlane-move :
      (board : Square → Piece) (b : Bitboard) (from to : Square)
      → IsPlane (λ x. f (board x)) b
      → from < 64
      → to < 64
      → from ≢ to
      → board to ≡ no_piece
      → IsPlane
          (λ x. f (update (update board from no_piece) to (board from) x))
          (if f (board from) then bit_xor b (bit_or (from_square from) (from_square to)) else b)
  IsPlane-move board b from to h hf ht ne free = elim (Bool-cases (f (board from))) [
    | inl passes ↦
        rw (passes, toggle_both b from to ne)
          (record {
            fits = toggle-fits (toggle b from) to (toggle-fits b from h.fits hf) ht;
            same = λ i hi. ground (
              arith,
              (contains_updates (toggle b from) to i ht hi).2,
              (contains_updates b from i hf hi).2,
              update_test (update board from no_piece) to (board from) i,
              update_test board from no_piece i,
              h.same i hi,
              at_square board from i (refl {a = board from}),
              at_square board to i free,
              none_fails,
              passes,
              ne,
            );
          })
    | inr fails ↦ rw fails (record {
      fits = h.fits;
      same = λ i hi. ground (
        arith,
        update_test (update board from no_piece) to (board from) i,
        update_test board from no_piece i,
        h.same i hi,
        at_square board from i (refl {a = board from}),
        at_square board to i free,
        none_fails,
        fails,
        ne,
      );
    })
  ]
