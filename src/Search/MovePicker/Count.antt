-- ===== src/Search/MovePicker/Count.antt =====
-- How often a move is pending when a picker opens: as often as it was generated, but for the
-- transposition move, which stands apart.
use rfish.Prelude.{ℕ, ◌+◌, ◌-◌, ◌≤◌, ◌≡◌, ◌∙◌, refl, arith, ap, ap₂, Bool, true, false, not, ◌&&◌}
use rfish.Prelude.{◌==◌, List, [], ◌∷◌, ◌++◌, length, entries, entries_all}
use rfish.Prelude.Int.{ℤ}
use rfish.Board.Move.{Move}
use rfish.Board.MoveGen.{quiets}
use rfish.Search.MoveSort.{ScoredMove}
use rfish.Search.MoveSort.Tally.{
  unit_if, tally, tally-append, tally-full_insertion_sort, tally-partial_insertion_sort,
}
use rfish.Search.MovePicker.{
  Node, MovePicker, MoveBuf, Stage, good_capture, rescore, quiet_sort_limit, holds, is_good_quiet,
  first_kind,
}
use rfish.Search.MovePicker.Pending.{
  pick, moves, unscored, is_fresh, taken, left, with_quiets, with_captures, behind_captures,
  quiet_order, first_order, opened, pending_at,
}
use rfish.Search.MovePicker.Opening.{length-first_order}

unfoldable pub count_by : (Move → Bool) → List Move → ℕ
count_by f [] = 0
count_by f (m ∷ ms) = unit_if (f m) + count_by f ms

pub count_by-append :
    (f : Move → Bool) (xs ys : List Move) → count_by f (xs ++ ys) ≡ count_by f xs + count_by f ys
unfolding count_by
count_by-append f [] ys = omega arith
count_by-append f (x ∷ xs) ys = omega (arith, count_by-append f xs ys)

pub count_by-le_length : (f : Move → Bool) (ms : List Move) → count_by f ms ≤ length ms
unfolding count_by
count_by-le_length f [] = omega arith
count_by-le_length f (m ∷ ms) = ground (arith, count_by-le_length f ms)

abbrev pub of_move : (Move → Bool) → ScoredMove → Bool
of_move f sm = f sm.mv

count_by-moves : (f : Move → Bool) (l : MoveBuf) → count_by f (moves l) ≡ tally (of_move f) l
unfolding count_by moves tally
count_by-moves f [] = refl
count_by-moves f (sm ∷ l) = ap (λ n. unit_if (f sm.mv) + n) (count_by-moves f l)

tally-unscored :
    (f : Move → Bool) (score : Move → ℤ) (ms : List Move)
    → tally (of_move f) (rescore score (unscored ms)) ≡ count_by f ms
unfolding tally rescore unscored count_by
tally-unscored f score [] = refl
tally-unscored f score (m ∷ ms) = ap (λ n. unit_if (f m) + n) (tally-unscored f score ms)

tally-pick :
    (test q : ScoredMove → Bool) (l : MoveBuf)
    → tally q (pick test l) ≡ tally (λ sm. test sm && q sm) l
unfolding tally pick
tally-pick test q [] = refl
tally-pick test q (sm ∷ l) = ground (arith, tally-pick test q l)

-- The moves that a loop takes and those that it leaves are all but the transposition move.
tally_both :
    (tt_move : Move) (accepts q : ScoredMove → Bool) (l : MoveBuf)
    → tally q (pick (taken tt_move accepts) l) + tally q (pick (left tt_move accepts) l)
      ≡ tally (λ sm. is_fresh tt_move sm && q sm) l
unfolding tally pick
tally_both tt_move accepts q [] = refl
tally_both tt_move accepts q (sm ∷ l) = ground (arith, tally_both tt_move accepts q l)

tally-taken :
    (tt_move : Move) (q : ScoredMove → Bool) (l : MoveBuf)
    → tally q (pick (taken tt_move (λ sm. true)) l) ≡ tally (λ sm. is_fresh tt_move sm && q sm) l
unfolding tally pick
tally-taken tt_move q [] = refl
tally-taken tt_move q (sm ∷ l) = ground (arith, tally-taken tt_move q l)

tally-with_quiets :
    (tt_move : Move) (q : ScoredMove → Bool) (bad l : MoveBuf)
    → tally q (with_quiets tt_move bad l)
      ≡ tally q bad + tally (λ sm. is_fresh tt_move sm && q sm) l
unfolding with_quiets
tally-with_quiets tt_move q bad l =
    let good = pick (taken tt_move is_good_quiet) l in
    let others = pick (left tt_move is_good_quiet) l in
    omega (
      arith,
      tally-append q good (bad ++ others),
      tally-append q bad others,
      tally_both tt_move is_good_quiet q l,
    )

tally-with_captures :
    (node : Node) (p : MovePicker) (q : ScoredMove → Bool) (l : MoveBuf)
    → p.skip_quiets ≡ false
    → tally q (with_captures node p [] l)
      ≡ tally (λ sm. is_fresh p.tt_move sm && q sm) l
        + tally (λ sm. is_fresh p.tt_move sm && q sm) (quiet_order node p.depth)
unfolding with_captures behind_captures
tally-with_captures node p q l no_skip =
    let good = pick (taken p.tt_move (holds node)) l in
    let bad = pick (left p.tt_move (holds node)) l in
    let behind = with_quiets p.tt_move bad (quiet_order node p.depth) in
    rw no_skip (
      omega (
        arith,
        tally-append q good behind,
        tally-with_quiets p.tt_move q bad (quiet_order node p.depth),
        tally_both p.tt_move (holds node) q l,
      ))

module _ (node : Node) (tt_move : Move) (f : Move → Bool) where
  abbrev pub but_tt : Move → Bool
  but_tt m = not (m == tt_move) && f m

  tally-first_order :
      (stage : Stage)
      → tally (of_move but_tt) (first_order node stage)
        ≡ count_by but_tt (node.generate (first_kind stage))
  unfolding first_order
  tally-first_order stage =
      let kind = first_kind stage in
      tally-full_insertion_sort (of_move but_tt)
        (rescore (node.score kind) (unscored (node.generate kind)))
      ∙ tally-unscored but_tt (node.score kind) (node.generate kind)

  tally-quiet_order :
      (depth : ℤ)
      → tally (of_move but_tt) (quiet_order node depth) ≡ count_by but_tt (node.generate quiets)
  unfolding quiet_order
  tally-quiet_order depth =
      tally-partial_insertion_sort (of_move but_tt)
        (rescore (node.score quiets) (unscored (node.generate quiets))) (quiet_sort_limit depth)
      ∙ tally-unscored but_tt (node.score quiets) (node.generate quiets)

-- What a picker reads when it has just opened a stage.
pub opened_unread :
    (node : Node) (stage : Stage)
    → entries (first_order node stage) 0 (length (unscored (node.generate (first_kind stage))) - 0)
      ≡ first_order node stage
opened_unread node stage =
    let l = first_order node stage in
    let all : length (unscored (node.generate (first_kind stage))) - 0 ≡ length l =
      omega (arith, length-first_order node stage) in
    ap (entries l 0) all ∙ entries_all l

module _ (node : Node) (p : MovePicker) (f : Move → Bool) where
  pub count_opened_captures :
      p.first_stage ≡ good_capture
      → p.skip_quiets ≡ false
      → count_by f
          (moves (pending_at good_capture node (opened node p) (first_order node p.first_stage)))
        ≡ count_by (but_tt node p.tt_move f) (node.generate (first_kind p.first_stage))
          + count_by (but_tt node p.tt_move f) (node.generate quiets)
  unfolding pending_at entries pick
  count_opened_captures at no_skip =
      let l = first_order node p.first_stage in
      ap (λ e. count_by f (moves (with_captures node (opened node p) [] e)))
        (opened_unread node p.first_stage)
      ∙ count_by-moves f (with_captures node (opened node p) [] l)
      ∙ tally-with_captures node (opened node p) (of_move f) l no_skip
      ∙ ap₂ (λ a b. a + b) (tally-first_order node p.tt_move f p.first_stage)
          (tally-quiet_order node p.tt_move f p.depth)

  pub count_opened_reading :
      count_by f (
        moves (
          pick (taken p.tt_move (λ sm. true)) (
            entries
              (first_order node p.first_stage)
              0
              (length (unscored (node.generate (first_kind p.first_stage))) - 0))))
      ≡ count_by (but_tt node p.tt_move f) (node.generate (first_kind p.first_stage))
  count_opened_reading =
      let l = first_order node p.first_stage in
      ap (λ e. count_by f (moves (pick (taken p.tt_move (λ sm. true)) e)))
        (opened_unread node p.first_stage)
      ∙ count_by-moves f (pick (taken p.tt_move (λ sm. true)) l)
      ∙ tally-taken p.tt_move (of_move f) l
      ∙ tally-first_order node p.tt_move f p.first_stage
