-- ===== src/Board/Legality/Agreement.antt =====
-- `legal` against the generator: for a piece that is neither a pawn nor a king, out of check, a plain
-- move is legal exactly when it is generated, among the captures or among the quiets.
use rfish.Prelude.{
  ℕ, ◌+◌, ◌^◌, ◌<◌, ◌≡◌, ◌≢◌, ◌∙◌, refl, arith, ap, ap₂, sym, all_below, all_below_sound,
}
use rfish.Prelude.{Bool, true, false, not, ◌&&◌, ◌||◌, ◌==◌, if◌then◌else◌, Bool-cases, inl, inr}
use rfish.Prelude.{Option, some, ◌>>=◌, >>=-some}
use rfish.Board.Piece.{
  Color, white, black, color, color_index, opponent, is_none, piece_type, PieceType, pawn, king,
  knight, no_type, type_index,
}
use rfish.Board.Piece as Piece
use rfish.Board.Piece.Laws.{new_fields}
use rfish.Board.Square.{Square}
use rfish.Board.Move.{Move, MoveType, new, normal, is_ok, move_type, from_square, to_square}
use rfish.Board.Move.Encoding.{new-eq-typed, typed_fields, typed-is_ok}
use rfish.Board.Bitboard.{Bitboard, any, contains, not_u64}
use rfish.Board.Bitboard.Lowest.{bit_and_fits_left}
use rfish.Board.Attacks.{Sliders, attacks_from, piece_attacks, aligned}
use rfish.Board.Placement.{occupied, colored, pieces, pieces_of, king_square}
use rfish.Board.Placement.Contract.{IsPlacement, of_type, of_color}
use rfish.Board.Position.{Position, is_type}
use rfish.Board.Position.Threats.{blockers_for_king}
use rfish.Board.MoveGen.{generate_for}
use rfish.Board.MoveGen.Pieces.{times, once, times-generate_for, contains_both, contains-not_u64}
use rfish.Board.MoveGen.Legal.{generate_legal}
use rfish.Board.Legality.{
  legal, contains_move, is_own, piece_may, keeps_king, answers_check, keeps_pin, is_kind,
}

==_refl : (n : ℕ) → (n == n) ≡ true
==_refl n = ground arith

tests :
    (o r k : Bool) (may keep : Option Bool)
    → may ≡ some r
    → keep ≡ some k
    → (if o then some false else (may >>= λ x. if x then keep else some false))
      ≡ some (not o && (r && k))
tests true r k may keep hm hk = refl
tests false true k may keep hm hk = >>=-some may _ hm ∙ hk
tests false false k may keep hm hk = >>=-some may _ hm

-- The move is generated once, in one of the two lists, when it is none of the other things.
counted_once :
    (o r e q k : Bool)
    → once e + once q ≡ once (not o)
    → (not o && (r && k)) ≡ ((once (true && r && e && k) + once (true && r && q && k)) == 1)
counted_once true r e q k split = ground (arith, split)
counted_once false true e q true split = ground (arith, split)
counted_once false true e q false split = ground (arith, split)
counted_once false false e q k split = ground (arith, split)

Fits : Color → PieceType → Type 0
Fits c pt =
    ((Piece.new c pt == 0) ≡ false)
    × (of_color (color_index c) (Piece.new c pt) ≡ true)
    × (of_type (type_index pt) (Piece.new c pt) ≡ true)

new-Fits : (c : Color) (pt : PieceType) → is_kind pt no_type ≡ false → Fits c pt
unfolding Fits Piece.new piece_type
new-Fits white no_type h = cc
new-Fits black no_type h = cc
new-Fits white _ h = (refl, refl, refl)
new-Fits black _ h = (refl, refl, refl)

real_type :
    (sl : Sliders) (pt : PieceType) (f : Square) (occ : Bitboard) {b : Bitboard}
    → piece_attacks sl pt f occ ≡ some b
    → is_kind pt no_type ≡ false
unfolding piece_attacks attacks_from
real_type sl no_type f occ h = cc
real_type sl _ f occ h = refl

-- A square is the enemy's or empty exactly when it is not one's own.
abbrev one_of : Color → ℕ → Bool
one_of us pc =
    (once (of_color (color_index (opponent us)) pc) + once (not (of_type 0 pc)))
    == once (not (of_color (color_index us) pc))

squares_split : (us : Color) → all_below 16 (one_of us) ≡ true
unfolding all_below piece_type
squares_split white = refl
squares_split black = refl

module _ (sl : Sliders) (p : Position) (is_placement : IsPlacement p.placement) where
  abbrev us : Color
  us = p.side_to_move

  abbrev own : Bitboard
  own = colored p.placement us

  abbrev enemy : Bitboard
  enemy = colored p.placement (opponent us)

  abbrev vacant : Bitboard
  vacant = not_u64 (occupied p.placement)

  piece_low : (sq : Square) → p.placement.board sq < 16
  piece_low sq = ground (arith, is_placement.IsPiece sq)

  target_split :
      (t : Square)
      → t < 64
      → once (contains enemy t) + once (contains vacant t) ≡ once (not (contains own t))
  target_split t low =
      let pc = p.placement.board t in
      let checked = all_below_sound 16 (one_of us) pc (squares_split us) (piece_low t) in
      let theirs = (is_placement.colors (color_index (opponent us))).same t low in
      let ours = (is_placement.colors (color_index us)).same t low in
      let held = (is_placement.types 0).same t low in
      let clear_there = contains-not_u64 (occupied p.placement) t (is_placement.types 0).fits low in
      ap₂ (λ a b. once a + once b) theirs (clear_there ∙ ap not held)
      ∙ ground (arith, checked)
      ∙ ap (λ a. once (not a)) (sym ours)

  -- The part of `legal` behind the tests of the encoding.
  plain : Square → Square → Option Bool
  plain from to = is_own p from >>= λ mine.
      if not mine || contains own to
      then some false
      else (piece_may sl p (piece_type (p.placement.board from)) from to >>= λ reaches.
          if reaches
          then keeps_king sl p (piece_type (p.placement.board from)) from to
          else some false)

  legal-plain :
      (m : Move)
      → is_ok m ≡ true
      → move_type m ≡ MoveType.normal
      → legal sl p m ≡ plain (from_square m) (to_square m)
  unfolding legal plain
  legal-plain m ok kind =
      let special = generate_legal sl p >>= λ ms. some (contains_move ms m) in
      ap
        (λ b.
          if not b
          then some false
          else if not (is_type (move_type m) MoveType.normal)
          then special
          else plain (from_square m) (to_square m))
        ok
      ∙ ap
          (λ k.
            if not (is_type k MoveType.normal)
            then special
            else plain (from_square m) (to_square m))
          kind

  module _ (pt : PieceType) (f t ksq : Square) (is_knight : Bool) (reach : Square → Bitboard)
      (hf : f < 64) (ht : t < 64) (apart : f ≢ t) (mover : p.placement.board f ≡ Piece.new us pt)
      (no_pawn : is_kind pt pawn ≡ false) (no_king : is_kind pt king ≡ false)
      (reaches : piece_attacks sl pt f (occupied p.placement) ≡ some (reach f))
      (no_check : any p.st.checkers ≡ false) (king_there : king_square p.placement us ≡ some ksq)
      (pin_fits : blockers_for_king p us < 2 ^ 64)
      (lines : aligned sl f t ksq ≡ (not is_knight && contains (sl.line_bb ksq f) t)) where
    abbrev pinned : Bitboard
    pinned = blockers_for_king p us

    abbrev stays : Bool
    stays = not (contains pinned f) || (not is_knight && contains (sl.line_bb ksq f) t)

    mover_type : piece_type (p.placement.board f) ≡ pt
    mover_type = ap piece_type mover ∙ (new_fields us pt).2

    real_mover : (p.placement.board f == 0) ≡ false → is_own p f ≡ some true
    unfolding is_own
    real_mover there =
        let side = ap color mover ∙ (new_fields us pt).1 in
        rw there
          (>>=-some (color (p.placement.board f)) _ side ∙ ap some (==_refl (color_index us)))

    may : piece_may sl p pt f t ≡ some (contains (reach f) t)
    unfolding piece_may
    may = rw no_pawn (>>=-some (piece_attacks sl pt f (occupied p.placement)) _ reaches)

    keeps : keeps_king sl p pt f t ≡ some stays
    unfolding keeps_king answers_check keeps_pin
    keeps =
        rw (no_king, no_check)
          (elim (Bool-cases (contains pinned f)) [
            | inr loose ↦ rw loose refl
            | inl held ↦
                rw held (>>=-some (king_square p.placement us) _ king_there ∙ ap some lines)
          ])

    plain_lem :
        (p.placement.board f == 0) ≡ false
        → plain f t ≡ some (not (contains own t) && (contains (reach f) t && stays))
    unfolding plain
    plain_lem there =
        let rest = λ (kind : PieceType).
          if not true || contains own t
          then some false
          else (piece_may sl p kind f t >>= λ r.
              if r then keeps_king sl p kind f t else some false) in
        >>=-some (is_own p f) _ (real_mover there)
        ∙ ap rest mover_type
        ∙ tests (contains own t) (contains (reach f) t) stays (piece_may sl p pt f t)
            (keeps_king sl p pt f t) may keeps

    mover_fits : Fits us pt
    mover_fits = new-Fits us pt (real_type sl pt f (occupied p.placement) reaches)

    has_piece : contains (pieces_of p.placement us pt) f ≡ true
    unfolding Fits
    has_piece =
        contains_both own (pieces p.placement pt) f
        ∙ ap₂ (λ a b. a && b)
            ((is_placement.colors (color_index us)).same f hf
              ∙ ap (of_color (color_index us)) mover
              ∙ mover_fits.1)
            ((is_placement.types (type_index pt)).same f hf
              ∙ ap (of_type (type_index pt)) mover
              ∙ mover_fits.2)

    abbrev generated : Bitboard → ℕ
    generated target =
        times (new f t)
          (generate_for sl ksq (pieces_of p.placement us pt) pinned target is_knight reach)

    generated_count :
        (target : Bitboard)
        → target < 2 ^ 64
        → generated target ≡ once (true && contains (reach f) t && contains target t && stays)
    generated_count target fits =
        times-generate_for sl ksq (pieces_of p.placement us pt) pinned target is_knight reach f t
          (bit_and_fits_left own (pieces p.placement pt)
            (is_placement.colors (color_index us)).fits)
          pin_fits fits hf ht
        ∙ ap (λ b. once (b && contains (reach f) t && contains target t && stays)) has_piece

    -- On a consistent board, out of check, for a knight, bishop, rook or queen of the side to move with
    -- its king on the board, whose line from the king the two line tests read alike: a plain move
    -- between two different squares is legal exactly when the generator for that piece lists it, once,
    -- among the captures or among the quiets.
    pub legal-generate_for : legal sl p (new f t) ≡ some ((generated enemy + generated vacant) == 1)
    unfolding Fits
    legal-generate_for =
        let fields = typed_fields normal f t knight hf ht (omega arith) in
        let packed = new-eq-typed f t hf ht in
        let ok = ap is_ok packed ∙ typed-is_ok normal f t knight hf ht (omega arith) apart in
        let kind = ap move_type packed ∙ fields.3 in
        let there = ap (λ (n : ℕ). n == 0) mover ∙ mover_fits.0 in
        legal-plain (new f t) ok kind
        ∙ ap₂ plain (ap from_square packed ∙ fields.1) (ap to_square packed ∙ fields.2)
        ∙ plain_lem there
        ∙ ap some (
            counted_once (contains own t) (contains (reach f) t) (contains enemy t)
              (contains vacant t) stays (target_split t ht)
            ∙ ap₂ (λ a b. (a + b) == 1)
                (sym (generated_count enemy (is_placement.colors (color_index (opponent us))).fits))
                (sym (generated_count vacant (omega arith))))
