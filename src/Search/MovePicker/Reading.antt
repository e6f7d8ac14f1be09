-- ===== src/Search/MovePicker/Reading.antt =====
-- The stages that only read the buffer: bad moves, quiescence, evasions and ProbCut.
use rfish.Prelude.{ℕ, ◌+◌, ◌-◌, ◌≤◌, ◌<◌, ◌≡◌, ◌∙◌, refl, arith, ap, sym, subst, Bool}
use rfish.Prelude.{Option, none, some, ◌>>=◌, List, ◌∷◌, length, entries}
use rfish.Board.Move.{Move}
use rfish.Search.MoveSort.{ScoredMove}
use rfish.Search.MovePicker.{
  Node, MovePicker, MoveBuf, Stage, finished, Pass, returns, goes_on, select, after_select,
}
use rfish.Search.MovePicker.Pending.{
  pick, moves, taken, pending, pending_from, pending_at, ReadyAt, IsReady, rank, next_of, Refines,
  PassRefines,
}
use rfish.Search.MovePicker.Steps.{Passed, select_loop-Passed}

module _ (node : Node) (p : MovePicker) (buf : MoveBuf) (stage : Stage)
    (accepts : ScoredMove → Bool) (at : p.stage ≡ stage) (low : 1 < rank stage)
    (shape : (k e : ℕ)
      → pending_from stage node (record p { cur = k; end_bad_moves = e }) buf
        ≡ moves (pick (taken p.tt_move accepts) (entries buf k (p.end_cur - k))))
    (ready : (k e : ℕ)
      → k ≤ length buf
      → ReadyAt stage node (record p { cur = k; end_bad_moves = e }) buf) where
  abbrev count : ℕ
  count = p.end_cur - p.cur

  abbrev found_on : ℕ → List Move
  found_on k = moves (pick (taken p.tt_move accepts) (entries buf k (p.end_cur - k)))

  abbrev moved : MovePicker → MovePicker
  moved q = record p { cur = q.cur; end_bad_moves = q.end_bad_moves }

  pending_here : pending node p buf ≡ found_on p.cur
  unfolding pending
  pending_here = ap (λ s. pending_from s node p buf) at ∙ shape p.cur p.end_bad_moves

  pending-moved : (q : MovePicker) → q ≡ moved q → pending node q buf ≡ found_on q.cur
  unfolding pending
  pending-moved q same =
      ap (λ r. pending node r buf) same
      ∙ ap (λ s. pending_from s node (moved q) buf) at
      ∙ shape q.cur q.end_bad_moves

  IsReady-moved : (q : MovePicker) → q ≡ moved q → q.cur ≤ length buf → IsReady node q buf
  IsReady-moved q same inside =
      subst (λ r. IsReady node r buf) (sym same)
        (subst (λ s. ReadyAt s node (moved q) buf) (sym at) (ready q.cur q.end_bad_moves inside))

  none_found :
      (q : MovePicker)
      → Passed accepts count p buf none q buf
      → pending node p buf ≡ pending node (record q { stage = finished }) buf
  unfolding pick moves entries pending pending_from pending_at
  none_found q run =
      let zero_left : p.cur + count - q.cur ≡ 0 = omega (arith, run.ends) in
      pending_here
      ∙ run.accepted
      ∙ ap (λ (n : ℕ). moves (pick (taken p.tt_move accepts) (entries buf q.cur n))) zero_left

  IsReady-finished : (q : MovePicker) → IsReady node (record q { stage = finished }) buf
  unfolding ReadyAt
  IsReady-finished q = tt

  after_run :
      p.cur ≤ length buf
      → p.end_cur ≤ length buf
      → (r : Option Move × MovePicker) → Passed accepts count p buf r.0 r.1 buf
      → (pass : Pass) × (after_select buf r ≡ some pass) × Refines node p buf pass
  after_run inside fits (some m, q) run =
      let left_over : p.cur + count - q.cur ≡ p.end_cur - q.cur =
        omega (arith, run.on, run.within) in
      (
        returns m q buf,
        refl,
        (
          IsReady-moved q run.same (omega (arith, run.within)),
          ap next_of (
                pending_here
                ∙ run.accepted
                ∙ ap (λ n. m ∷ moves (pick (taken p.tt_move accepts) (entries buf q.cur n)))
                    left_over)
              ∙ ap (λ l. (m, l)) (sym (pending-moved q run.same)),
        ),
      )
  after_run inside fits (none, q) run = (
    goes_on (record q { stage = finished }) buf,
    refl,
    (IsReady-finished q, sym (none_found q run), subst (λ s. 1 < rank s) (sym at) low),
  )

  pub select-Refines :
      p.cur ≤ length buf
      → p.end_cur ≤ length buf
      → PassRefines node p buf (select accepts p buf >>= after_select buf)
  unfolding select
  select-Refines inside fits =
      let (r, runs, run) = select_loop-Passed accepts count p buf (omega arith) in
      let (pass, ends, refines) = after_run inside fits r run in
      (pass, ap (λ o. o >>= after_select buf) runs ∙ ends, refines)
