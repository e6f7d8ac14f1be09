-- ===== src/Board/Position/State/Total.antt =====
-- A move's new state is computed without a panic: no king is missing and no count leaves its slots.
use rfish.Prelude.{◌≡◌, arith, refl, sym, subst, ◌∙◌, >>=-some}
use rfish.Prelude.{
  Bool, true, false, not, ◌&&◌, ◌==◌, if◌then◌else◌, Option, some, Bool-cases, inl, inr,
}
use rfish.Board.Piece.{Color, PieceType, Piece, is_none, new as new_piece}
use rfish.Board.Zobrist.{is_real}
use rfish.Board.Square.{Square, apart}
use rfish.Board.Move.{MoveType}
use rfish.Board.Attacks.{Sliders}
use rfish.Board.Zobrist.{Tables}
use rfish.Board.Placement.{Placement, remove_piece, swap_piece}
use rfish.Board.Placement.Counts.{occurrences, occurrences_positive}
use rfish.Board.Placement.Contract.{IsPlacement, remove_piece-IsPlacement}
use rfish.Board.Position.{StateInfo, is_type}
use rfish.Board.Position.Checks.Total.{HasKings}
use rfish.Board.Position.Moves.{capture_square, promotes, promote, place, is_pawn}
use rfish.Board.Position.Moves.RoundTrip.{
  IsStep, moved_lem, promoted_lem, place_plain, real_victim, on_capture_square, cleared, moved,
}
use rfish.Board.Position.State.{
  count_slot, pawn_moved, capture_state, double_push, promote_state, move_state, next_state,
}
use rfish.Board.Position.State.Slots.{
  Few, Few-remove, Few-swap, Few-move, count_slot-some, count-pos, Few-take_captured,
  promote_passes, promote_stays, swap_piece-at, promote_state-of, double_push-of,
}

not_promoting :
    (mt : MoveType) (from to : Square) (pc : Piece)
    → (apart to from == 16) ≡ true
    → promotes mt pc from to ≡ false
not_promoting mt from to pc double = ground (arith, double)

pub never_promotes :
    (mt : MoveType) (from to : Square) (pc : Piece)
    → promotes mt pc from to ≡ true
    → is_type mt MoveType.promotion ≡ false
    → ⊥
never_promotes mt from to pc passes other = ground (arith, other)

-- A choice of four results each of which returns where it is chosen.
choose-some :
    (is_double is_promotion moves_pawn : Bool) (pushed changed plain other : Option StateInfo)
    → (is_double ≡ true → (st : StateInfo) × (pushed ≡ some st))
    → (moves_pawn && not is_double && is_promotion ≡ true → (st : StateInfo) × (changed ≡ some st))
    → (st : StateInfo) × (plain ≡ some st)
    → (st : StateInfo) × (other ≡ some st)
    → (st : StateInfo) × ((if moves_pawn
          then (if is_double then pushed else if is_promotion then changed else plain)
          else other)
        ≡ some st)
choose-some is_double is_promotion false pushed changed plain other a b c d = d
choose-some true is_promotion true pushed changed plain other a b c d = a refl
choose-some false true true pushed changed plain other a b c d = b refl
choose-some false false true pushed changed plain other a b c d = c

move_state-of :
    (keys : Tables) (sl : Sliders) (mt : MoveType) (us : Color) (from to : Square)
    (promo : PieceType) (pc : Piece) (q : Placement)
    → ((apart to from == 16) ≡ true
        → (st : StateInfo) → (st' : StateInfo) × (double_push keys sl us from to q st ≡ some st'))
    → (promotes mt pc from to ≡ true
        → (st : StateInfo)
        → (st' : StateInfo) × (promote_state keys us to promo pc
              (promote mt us from to promo pc q)
              st
            ≡ some st'))
    → (st : StateInfo)
    → (st' : StateInfo) × (move_state keys sl mt us from to promo pc q st ≡ some st')
unfolding move_state
move_state-of keys sl mt us from to promo pc q pushes changes st =
    choose-some (apart to from == 16) (is_type mt MoveType.promotion) (is_pawn pc) _ _ _ _
      (λ double. pushes double (pawn_moved keys pc from to st))
      (λ passes. changes passes (pawn_moved keys pc from to st)) (_, refl) (_, refl)

module _ (keys : Tables) (sl : Sliders) (p : Placement) (mt : MoveType) (us : Color)
    (from to : Square) (promo : PieceType) (step : IsStep p mt us from to promo)
    (few : Few 32 p) where
  capture_state-some :
      (st : StateInfo) → (st' : StateInfo) × (capture_state keys mt us to p st ≡ some st')
  unfolding capture_state
  capture_state-some st = elim (Bool-cases (is_none (p.board (capture_square mt us to)))) [
    | inl none_there ↦ (st, rw (on_capture_square p mt us from to promo step, none_there) refl)
    | inr some_victim ↦
        let sq = capture_square mt us to in
        let real = real_victim p mt us from to promo step some_victim in
        let (n, counted, small) =
          count-pos (remove_piece sq p) (p.board sq) 33
            (remove_piece-IsPlacement p sq step.is_placement real step.capture_fits)
            (Few-remove 32 p sq step.capture_fits few) real in
        let (slot, found) = count_slot-some _ n counted (omega arith) in
        rw (on_capture_square p mt us from to promo step, some_victim)
          (_, >>=-some (count_slot ((remove_piece sq p).piece_count (p.board sq))) _ found)
  ]

  Few-moved : Few 35 (moved p mt us from to promo step)
  Few-moved =
      Few-move 33 (cleared p mt us from to promo step) from to step.from_fits step.to_fits
        Few-cleared
    where
      Few-cleared : Few 33 (cleared p mt us from to promo step)
      Few-cleared = Few-take_captured mt us to p 32 step.capture_fits few

  promote_state-some :
      promotes mt (p.board from) from to ≡ true
      → is_real (new_piece us promo) ≡ true
      → (st : StateInfo)
      → (st' : StateInfo) × (promote_state keys us to promo
            (p.board from)
            (promote mt us from to promo (p.board from) (moved p mt us from to promo step))
            st
          ≡ some st')
  promote_state-some passes real st =
      let q = moved p mt us from to promo step in
      let swapped = swap_piece to (new_piece us promo) q in
      let forward = promote_passes mt us from to promo (p.board from) q passes in
      let consistent =
        subst IsPlacement forward
          (promoted_lem mt us from to promo (p.board from) q
            (moved_lem p mt us from to promo step).0 step.to_fits step.mover_real
            (moved_lem p mt us from to promo step).1 step.pawn_promotes).0 in
      let few_left : Few 37 swapped =
        Few-swap 35 q to (new_piece us promo) step.to_fits Few-moved in
      let (n, counted, small) =
        count-pos swapped (p.board from) 37 consistent few_left step.mover_real in
      let there : swapped.board to ≡ new_piece us promo = swap_piece-at q to (new_piece us promo) in
      subst
        (λ r. (st' : StateInfo) × (promote_state keys us to promo (p.board from) r st ≡ some st'))
        (sym forward)
        (promote_state-of keys us to promo (p.board from) swapped st
          (occurrences 64 swapped.board (new_piece us promo)) n
          (consistent.tallies (new_piece us promo) ∙ ground (arith, real))
          (occurrences_positive 64 swapped.board to (new_piece us promo) step.to_fits there)
          (omega (arith, few_left (new_piece us promo) real)) counted (omega arith))

  double_push-some :
      promotes mt (p.board from) from to ≡ false
      → is_type mt MoveType.castling ≡ false
      → HasKings (place mt us from to promo p)
      → (st : StateInfo)
      → (st' : StateInfo) × (double_push keys sl us from to (moved p mt us from to promo step) st
          ≡ some st')
  double_push-some stays plain kings st =
      let q = moved p mt us from to promo step in
      let same =
        place_plain mt us from to promo p plain
        ∙ promote_stays mt us from to promo (p.board from) q stays in
      double_push-of keys sl us from to q st (subst HasKings same kings)

  move_state-some :
      is_type mt MoveType.castling ≡ false
      → HasKings (place mt us from to promo p)
      → (st : StateInfo)
      → (st' : StateInfo) × (move_state keys sl mt us from to promo
            (p.board from)
            (moved p mt us from to promo step)
            st
          ≡ some st')
  move_state-some plain kings =
      move_state-of keys sl mt us from to promo (p.board from) (moved p mt us from to promo step)
        (λ double. double_push-some (not_promoting mt from to (p.board from) double) plain kings)
        (λ passes. elim step.pawn_promotes [
          | inl other ↦ absurd (never_promotes mt from to (p.board from) passes other)
          | inr (own, again, real) ↦ promote_state-some passes real
        ])

  pub next_step-some :
      is_type mt MoveType.castling ≡ false
      → HasKings (place mt us from to promo p)
      → (st : StateInfo)
      → (st' : StateInfo) × (next_state keys sl mt us from to promo p st ≡ some st')
  unfolding next_state
  next_step-some plain kings st =
      let (taken, captured) = capture_state-some st in
      let (st', advanced) = move_state-some plain kings taken in
      (st', rw plain (>>=-some (capture_state keys mt us to p st) _ captured ∙ advanced))
