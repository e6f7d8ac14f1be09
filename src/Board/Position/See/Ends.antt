-- ===== src/Board/Position/See/Ends.antt =====
-- The exchange ends: each round takes a piece off the occupied squares.
use rfish.Prelude.{ℕ, zero, suc, ◌+◌, ◌^◌, ◌<◌, ◌≡◌, ◌∙◌, refl, arith, sym, subst}
use rfish.Prelude.{Bool, true, false, not, ◌==◌, if◌then◌else◌, Bool-cases, inl, inr}
use rfish.Prelude.{Option, none, some, ◌>>=◌, >>=-some, bit_and, bit_or, bit_xor}
use rfish.Prelude.Int.{ℤ, pos, ◌-ℤ◌, ltb_ℤ, leb_ℤ}
use rfish.Board.Piece.{Color, white, opponent, color_index, new as new_piece}
use rfish.Board.Piece.{PieceType, pawn, knight, bishop, rook, queen}
use rfish.Board.Square.{Square}
use rfish.Board.Move.{Move, MoveType, move_type, from_square, to_square}
use rfish.Board.Value.{Value, value_zero, piece_value}
use rfish.Board.Bitboard.{Bitboard, any, is_empty, lsb, not_u64, contains, toggle}
use rfish.Board.Bitboard.{from_square as square_bb}
use rfish.Board.Bitboard.Lowest.{
  lsb_lem, contains-bit_and, contains-bit_and_left, bit_and_fits, bit_and_fits_left, size,
  size_bound, size-toggle,
}
use rfish.Board.Attacks.{Sliders}
use rfish.Board.Placement.{occupied, pieces, colored}
use rfish.Board.Placement.Planes.{toggle-fits}
use rfish.Board.Position.{Position, is_type}
use rfish.Board.Position.Checks.{attackers_to_occ}
use rfish.Board.Position.Threats.{blockers_for_king}
use rfish.Board.Position.See.{as_int, cheapest, behind, joining, see_loop, see_ge}

module _ (sl : Sliders) (p : Position) where
  -- What the cheapest attackers are: some of the pieces, and not none.
  Chosen : Bitboard → Option (PieceType × Bitboard) → Type 0
  Chosen own none = Unit
  Chosen own (some (pt, bb)) = (bb ≡ bit_and own (pieces p.placement pt)) × ((bb == 0) ≡ false)

  choose :
      (own : Bitboard) (pt : PieceType) (rest : Option (PieceType × Bitboard))
      → Chosen own rest
      → Chosen own (
          if any (bit_and own (pieces p.placement pt))
          then some (pt, bit_and own (pieces p.placement pt))
          else rest)
  unfolding Chosen
  choose own pt rest later = elim (Bool-cases (bit_and own (pieces p.placement pt) == 0)) [
    | inl nothing ↦ rw nothing later
    | inr some_there ↦ rw some_there (refl, some_there)
  ]

  cheapest-Chosen : (own : Bitboard) → Chosen own (cheapest sl p own)
  unfolding cheapest Chosen
  cheapest-Chosen own =
      choose own pawn _
        (choose own knight _ (choose own bishop _ (choose own rook _ (choose own queen none tt))))

  joining-le :
      (stm : Color) (attackers occ : Bitboard) (sq : Square)
      → contains (joining sl p stm attackers occ) sq ≡ true
      → contains attackers sq ≡ true
  unfolding joining
  joining-le stm attackers occ sq inside =
      elim (Bool-cases (any (bit_and (p.st.pinners (color_index (opponent stm))) occ))) [
        | inl pinned ↦ contains-bit_and_left attackers (colored p.placement stm) sq (
            contains-bit_and_left (bit_and attackers (colored p.placement stm))
              (not_u64 (blockers_for_king p stm)) sq (rw pinned at inside))
        | inr unpinned ↦
            contains-bit_and_left attackers (colored p.placement stm) sq (rw unpinned at inside)
      ]

  joining-fits :
      (stm : Color) (attackers occ : Bitboard)
      → attackers < 2 ^ 64
      → joining sl p stm attackers occ < 2 ^ 64
  unfolding joining
  joining-fits stm attackers occ fits =
      let own = bit_and_fits_left attackers (colored p.placement stm) fits in
      elim (Bool-cases (any (bit_and (p.st.pinners (color_index (opponent stm))) occ))) [
        | inl pinned ↦ rw pinned (
            bit_and_fits_left (bit_and attackers (colored p.placement stm))
              (not_u64 (blockers_for_king p stm)) own)
        | inr unpinned ↦ rw unpinned own
      ]

  abbrev Answers : Option Bool → Type 0
  Answers run = (answer : Bool) × (run ≡ some answer)

  module _ (n : ℕ) (to : Square) (last : Color) (occ reaching : Bitboard) (swap : ℤ)
      (result : Bool) where
    abbrev stm : Color
    stm = opponent last

    abbrev attackers : Bitboard
    attackers = bit_and reaching occ

    abbrev own : Bitboard
    own = joining sl p stm attackers occ

    abbrev go_on : PieceType → Bitboard → Option Bool
    go_on pt bb = lsb bb >>= λ sq.
        see_loop sl p n to stm (bit_xor occ (square_bb sq))
          (bit_or attackers (behind sl p pt to (bit_xor occ (square_bb sq))))
          (piece_value (new_piece white pt) -ℤ swap) (not result)

    abbrev takes : PieceType → Bitboard → Option Bool
    takes pt bb =
        if ltb_ℤ (piece_value (new_piece white pt) -ℤ swap) (as_int (not result))
        then some (not result)
        else go_on pt bb

    abbrev round : Option (PieceType × Bitboard) → Option Bool
    round chosen = elim chosen [
      | none ↦ some (
          if any (bit_and attackers (not_u64 (colored p.placement stm)))
          then not (not result)
          else not result)
      | some (pt, bb) ↦ takes pt bb
    ]

    takes-Answers : (pt : PieceType) (bb : Bitboard) → Answers (go_on pt bb) → Answers (takes pt bb)
    takes-Answers pt bb later =
        elim (Bool-cases (ltb_ℤ (piece_value (new_piece white pt) -ℤ swap) (as_int (not result)))) [
          | inl stops ↦ rw stops (not result, refl)
          | inr goes ↦ rw goes later
        ]

    round-Answers :
        occ < 2 ^ 64
        → ((sq : Square) (pt : PieceType)
            → bit_xor occ (square_bb sq) < 2 ^ 64
            → size (bit_xor occ (square_bb sq)) + 1 ≡ size occ
            → Answers (
                see_loop sl p n to stm
                  (bit_xor occ (square_bb sq))
                  (bit_or attackers (behind sl p pt to (bit_xor occ (square_bb sq))))
                  (piece_value (new_piece white pt) -ℤ swap)
                  (not result)))
        → (chosen : Option (PieceType × Bitboard)) → Chosen own chosen
        → Answers (round chosen)
    unfolding Chosen toggle square_bb
    round-Answers fits later none h = (_, refl)
    round-Answers fits later (some (pt, bb)) (same, there) =
        let own_fits = joining-fits stm attackers occ (bit_and_fits reaching occ fits) in
        let bb_fits : bb < 2 ^ 64 =
          subst (λ b. b < 2 ^ 64) (sym same)
            (bit_and_fits_left own (pieces p.placement pt) own_fits) in
        let (sq, found, low, inside) = lsb_lem bb there bb_fits in
        let in_own : contains own sq ≡ true =
          contains-bit_and_left own (pieces p.placement pt) sq
            (subst (λ b. contains b sq ≡ true) same inside) in
        let in_occ : contains occ sq ≡ true =
          contains-bit_and reaching occ sq (joining-le stm attackers occ sq in_own) in
        let (answer, ends) =
          later sq pt (toggle-fits occ sq fits low) (size-toggle occ sq low in_occ) in
        takes-Answers pt bb (answer, >>=-some (lsb bb) _ found ∙ ends)

  -- With more rounds than occupied squares the loop answers.
  see_loop-Answers :
      (n : ℕ) (to : Square) (last : Color) (occ reaching : Bitboard) (swap : ℤ) (result : Bool)
      → occ < 2 ^ 64
      → size occ < n
      → Answers (see_loop sl p n to last occ reaching swap result)
  unfolding see_loop
  see_loop-Answers zero to last occ reaching swap result fits enough = absurd (omega arith)
  see_loop-Answers (suc n) to last occ reaching swap result fits enough =
      let mine = own n to last occ reaching swap result in
      elim (Bool-cases (is_empty mine)) [
        | inl nothing ↦ rw nothing (result, refl)
        | inr some_there ↦ rw some_there (
            round-Answers n to last occ reaching swap result fits
              (λ sq pt less count.
                see_loop-Answers n to (opponent last) (bit_xor occ (square_bb sq))
                  (bit_or (bit_and reaching occ) (behind sl p pt to (bit_xor occ (square_bb sq))))
                  (piece_value (new_piece white pt) -ℤ swap) (not result) less
                  (omega (arith, count, enough)))
              (cheapest sl p mine) (cheapest-Chosen mine))
      ]

either :
    (b : Bool) (x y : Option Bool)
    → (answer : Bool) × (x ≡ some answer)
    → (answer : Bool) × (y ≡ some answer)
    → (answer : Bool) × ((if b then x else y) ≡ some answer)
either true x y hx hy = hx
either false x y hx hy = hy

-- An exchange is decided on every board of 64 squares, for each move and threshold: the loop ends within
-- its rounds and no set is asked for a square that it does not have.
pub see_ge-Answers :
    (sl : Sliders) (p : Position) (m : Move) (threshold : Value)
    → occupied p.placement < 2 ^ 64
    → from_square m < 64
    → to_square m < 64
    → (answer : Bool) × (see_ge sl p m threshold ≡ some answer)
unfolding see_ge toggle square_bb
see_ge-Answers sl p m threshold fits from_fits to_fits =
    let from = from_square m in
    let to = to_square m in
    let occ = toggle (toggle (occupied p.placement) from) to in
    let swap = piece_value (p.placement.board to) -ℤ threshold in
    let margin = piece_value (p.placement.board from) -ℤ swap in
    let (answer, ends) =
      see_loop-Answers sl p 65 to p.side_to_move occ (attackers_to_occ sl p.placement to occ) margin
        true
        (toggle-fits (toggle (occupied p.placement) from) to
          (toggle-fits (occupied p.placement) from fits from_fits) to_fits)
        (omega (arith, size_bound occ)) in
    either (not (is_type (move_type m) MoveType.normal)) _ _ (leb_ℤ threshold value_zero, refl)
      (either (ltb_ℤ swap (pos 0)) _ _ (false, refl)
        (either (leb_ℤ margin (pos 0)) _ _ (true, refl) (answer, ends)))
