-- ===== src/Search/MovePicker/EarlyStop.antt =====
-- `select_good_quiet_sorted` against `select_good_quiet_walk`.
use rfish.Prelude.{ℕ, ◌+◌, ◌-◌, ◌≤◌, ◌≡◌, ◌∙◌, refl, arith, ap, sym, Option, none, some, List, []}
use rfish.Prelude.{◌++◌, length, entries}
use rfish.Board.Move.{Move}
use rfish.Search.MovePicker.{
  MovePicker, MoveBuf, is_good_quiet, select_good_quiet_walk, select_good_quiet_sorted,
}
use rfish.Search.MovePicker.Pending.{pick, moves, is_fresh, taken, left, unread, with_quiets, IsCut}
use rfish.Search.MovePicker.Steps.{Passed, one}
use rfish.Search.MovePicker.Deferring.{Defers, deferring_loop-RunsTo}
use rfish.Search.MovePicker.Sorted.{sorted_loop-RunsTo}
use rfish.Search.MovePicker.Capturing.{moves-append}

-- The quiets and deferred moves that are to come after a run of the stage.
abbrev pub queue_after : MovePicker → MovePicker → MoveBuf → List Move
queue_after p q buf = moves (
    with_quiets p.tt_move (pick (is_fresh p.tt_move) (entries buf 0 q.end_bad_moves))
      (entries buf q.cur (p.end_cur - q.cur)))

Parts : Option Move → List Move → Type 0
Parts none ms = ms ≡ []
Parts (some m) ms = Unit

-- Two ways to split one list into what was found and the rest are the same.
one_way :
    (f g : Option Move) (ms ns : List Move)
    → Parts f ms
    → Parts g ns
    → one f ++ ms ≡ one g ++ ns
    → (f ≡ g) × (ms ≡ ns)
unfolding Parts
one_way none none ms ns hf hg same = (refl, same)
one_way none (some b) ms ns hf hg same = absurd (cc)
one_way (some a) none ms ns hf hg same = absurd (cc)
one_way (some a) (some b) ms ns hf hg same = (cc, cc)

module _ (p : MovePicker) (buf : MoveBuf) (ahead : p.cur ≤ p.end_cur) where
  abbrev count : ℕ
  count = p.end_cur - p.cur

  abbrev good_rest : MovePicker → MoveBuf → List Move
  good_rest q out =
      moves (pick (taken p.tt_move is_good_quiet) (entries out q.cur (p.end_cur - q.cur)))

  module _ (found : Option Move) (q : MovePicker) (out : MoveBuf)
      (run : Passed is_good_quiet count p buf found q out)
      (defers : Defers is_good_quiet count p buf q out) where
    left_same : p.cur + count - q.cur ≡ p.end_cur - q.cur
    left_same = omega (arith, ahead)

    taken_split :
        moves (pick (taken p.tt_move is_good_quiet) (unread p buf)) ≡ one found ++ good_rest q out
    taken_split =
        run.accepted
        ∙ ap
            (λ (n : ℕ).
              one found ++ moves (pick (taken p.tt_move is_good_quiet) (entries out q.cur n)))
            left_same

    queue_split :
        queue_after p q out
        ≡ good_rest q out
          ++ moves (
              pick (is_fresh p.tt_move) (entries buf 0 p.end_bad_moves)
              ++ pick (left p.tt_move is_good_quiet) (unread p buf))
    unfolding with_quiets
    queue_split =
        moves-append (pick (taken p.tt_move is_good_quiet) (entries out q.cur (p.end_cur - q.cur)))
          _
        ∙ ap (λ l. good_rest q out ++ moves l)
            (ap
                (λ (n : ℕ).
                  pick (is_fresh p.tt_move) (entries out 0 q.end_bad_moves)
                  ++ pick (left p.tt_move is_good_quiet) (entries out q.cur n))
                (sym left_same)
              ∙ defers.front)

  Parts-of :
      (found : Option Move) (q : MovePicker) (out : MoveBuf)
      → Passed is_good_quiet count p buf found q out
      → Parts found (good_rest q out)
  unfolding Parts entries pick moves
  Parts-of none q out run =
      let zero_left : p.end_cur - q.cur ≡ 0 = omega (arith, run.ends) in
      ap (λ (n : ℕ). moves (pick (taken p.tt_move is_good_quiet) (entries out q.cur n))) zero_left
  Parts-of (some m) q out run = tt

-- On quiets of which none that is good stands behind one that is not, with nothing deferred since the
-- captures, the cursor behind the deferred moves and not past its end, and that end inside the buffer:
-- the early stop finds what the walk finds, and the same moves are to come, in one order.
pub select_good_quiet_sorted-walk :
    (p : MovePicker) (buf : MoveBuf)
    → p.end_bad_moves ≡ p.end_bad_captures
    → p.end_bad_moves ≤ p.cur
    → p.cur ≤ p.end_cur
    → p.end_cur ≤ length buf
    → IsCut (unread p buf)
    → (found : Option Move) × (q : MovePicker) × (out : MoveBuf) × (q' : MovePicker)
      × (out' : MoveBuf) × (select_good_quiet_walk p buf ≡ some (found, q, out))
      × (select_good_quiet_sorted p buf ≡ some (found, q', out'))
      × (queue_after p q out ≡ queue_after p q' out')
unfolding select_good_quiet_walk select_good_quiet_sorted
select_good_quiet_sorted-walk p buf start behind ahead fits cut =
    let n = p.end_cur - p.cur in
    let (found, q, out, runs, run, defers) =
      deferring_loop-RunsTo is_good_quiet n p buf behind (omega arith) in
    let (found', q', out', runs', run', defers', later) =
      sorted_loop-RunsTo n p buf (omega arith) (omega (arith, start)) fits start cut in
    let same =
      one_way found found' (good_rest p buf ahead q out) (good_rest p buf ahead q' out')
        (Parts-of p buf ahead found q out run) (Parts-of p buf ahead found' q' out' run')
        (sym (taken_split p buf ahead found q out run defers)
          ∙ taken_split p buf ahead found' q' out' run' defers') in
    (
      found,
      q,
      out,
      q',
      out',
      runs,
      runs' ∙ ap (λ f. some (f, q', out')) (sym same.0),
      queue_split p buf ahead found q out run defers
          ∙ ap
              (λ l.
                l
                ++ moves (
                    pick (is_fresh p.tt_move) (entries buf 0 p.end_bad_moves)
                    ++ pick (left p.tt_move is_good_quiet) (unread p buf)))
              same.1
          ∙ sym (queue_split p buf ahead found' q' out' run' defers'),
    )
