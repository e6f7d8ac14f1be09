-- ===== src/Search/MovePicker/Quieting.antt =====
-- The stage of the good quiets.
use rfish.Prelude.{ℕ, ◌+◌, ◌-◌, ◌≤◌, ◌<◌, ◌≡◌, ◌∙◌, refl, arith, ap, ap₂, sym, subst, false}
use rfish.Prelude.{
  Bool, leb, leb→le, ◌⊎◌, Bool-cases, inl, inr, if◌then◌else◌, Option, none, some, ◌>>=◌,
}
use rfish.Prelude.{◌++◌, length, append_nil, append_assoc, entries, List}
use rfish.Board.Move.{Move}
use rfish.Search.MovePicker.{
  Node, MovePicker, MoveBuf, good_quiet, returns, goes_on, deferring_loop, sorted_loop,
  is_good_quiet, select_good_quiet, select_good_quiet_walk, select_good_quiet_sorted, after_quiets,
  enter_bad_moves, sorted_past,
}
use rfish.Search.MovePicker.Pending.{
  pick, moves, is_fresh, taken, left, with_quiets, deferred, unread, pending, pending_from,
  pending_at, InQuiets, ReadyAt, IsReady, IsCut, rank, next_of, Refines, PassRefines,
}
use rfish.Search.MovePicker.Steps.{Passed, one}
use rfish.Search.MovePicker.Deferring.{Defers, deferring_loop-RunsTo}
use rfish.Search.MovePicker.Sorted.{Later, sorted_loop-RunsTo}
use rfish.Search.MovePicker.Capturing.{moves-append, pick_fresh}

abbrev good : MovePicker → MoveBuf → MoveBuf
good p l = pick (taken p.tt_move is_good_quiet) l

abbrev others : MovePicker → MoveBuf → MoveBuf
others p l = pick (left p.tt_move is_good_quiet) l

abbrev rest : MovePicker → MovePicker → MoveBuf → MoveBuf
rest p q buf = entries buf q.cur (p.end_cur - q.cur)

abbrev moved : MovePicker → MovePicker → MovePicker
moved p q = record p { cur = q.cur; end_bad_moves = q.end_bad_moves }

-- Where the stage stands after a run: at its end, or on with the rest.
abbrev After : Option Move → MovePicker → MovePicker → MoveBuf → Type 0
After none p q buf' =
    (p.end_cur ≤ q.cur) × (q.end_bad_moves ≤ length buf') × (p.end_bad_captures ≤ length buf')
After (some m) p q buf' = InQuiets (moved p q) buf'

record QuietRun (p : MovePicker) (buf : MoveBuf) (found : Option Move) (q : MovePicker)
    (buf' : MoveBuf) : Type 0 where
  same : q ≡ moved p q
  accepted : moves (good p (unread p buf)) ≡ one found ++ moves (good p (rest p q buf'))
  front :
      pick (is_fresh p.tt_move) (entries buf' 0 q.end_bad_moves) ++ others p (rest p q buf')
      ≡ deferred p buf ++ others p (unread p buf)
  after : After found p q buf'

module _ (p : MovePicker) (buf : MoveBuf) (ready : InQuiets p buf) where
  abbrev count : ℕ
  count = p.end_cur - p.cur

  abbrev Runs : Option (Option Move × MovePicker × MoveBuf) → Type 0
  Runs run =
      (found : Option Move) × (q : MovePicker) × (buf' : MoveBuf) × (run ≡ some (found, q, buf'))
      × QuietRun p buf found q buf'

  -- The two loops say the same of their rest, in terms of where they began.
  rest_same :
      (q : MovePicker) (buf' : MoveBuf)
      → p.cur ≤ p.end_cur
      → entries buf' q.cur (p.cur + count - q.cur) ≡ rest p q buf'
  rest_same q buf' ahead =
      let same : p.cur + count - q.cur ≡ p.end_cur - q.cur = omega (arith, ahead) in
      ap (entries buf' q.cur) same

  run_of :
      (found : Option Move) (q : MovePicker) (buf' : MoveBuf)
      → p.cur ≤ p.end_cur
      → Passed is_good_quiet count p buf found q buf'
      → Defers is_good_quiet count p buf q buf'
      → After found p q buf'
      → QuietRun p buf found q buf'
  run_of found q buf' ahead run defers after = record {
    same = run.same;
    accepted = run.accepted ∙ ap (λ l. one found ++ moves (good p l)) (rest_same q buf' ahead);
    front =
        ap (λ l. pick (is_fresh p.tt_move) (entries buf' 0 q.end_bad_moves) ++ others p l)
          (sym (rest_same q buf' ahead))
        ∙ defers.front;
    after = after;
  }

  module _ (behind : p.end_bad_moves ≤ p.cur) (ahead : p.cur ≤ p.end_cur)
      (whole : p.end_cur ≡ length buf) where
    after_walk :
        (found : Option Move) (q : MovePicker) (buf' : MoveBuf)
        → sorted_past p.depth ≡ false
        → Passed is_good_quiet count p buf found q buf'
        → Defers is_good_quiet count p buf q buf'
        → After found p q buf'
    after_walk none q buf' early run defers = (
      omega (arith, run.ends),
      omega (arith, run.size, run.within, defers.behind),
      omega (arith, run.size, ready.kept, ready.inside),
    )
    after_walk (some m) q buf' early run defers = record {
      kept = omega (arith, ready.kept, defers.grows);
      passed = omega (arith, ready.passed, run.on);
      inside = omega (arith, run.size, run.within, defers.behind);
      running = inr (defers.behind, whole ∙ sym run.size, inl early);
    }

    walk_Runs : sorted_past p.depth ≡ false → Runs (select_good_quiet_walk p buf)
    unfolding select_good_quiet_walk
    walk_Runs early =
        let (found, q, buf', runs, run, defers) =
          deferring_loop-RunsTo is_good_quiet count p buf behind (omega arith) in
        (
          found,
          q,
          buf',
          runs,
          run_of found q buf' ahead run defers (after_walk found q buf' early run defers),
        )

    after_sorted :
        (found : Option Move) (q : MovePicker) (buf' : MoveBuf)
        → p.end_bad_moves ≡ p.end_bad_captures
        → Passed is_good_quiet count p buf found q buf'
        → Defers is_good_quiet count p buf q buf'
        → Later found (p.cur + count) p q buf'
        → After found p q buf'
    after_sorted none q buf' start run defers later = (
      omega (arith, run.ends),
      omega (arith, run.size, run.within, defers.behind),
      omega (arith, run.size, ready.kept, ready.inside),
    )
    after_sorted (some m) q buf' start run defers later = record {
      kept = omega (arith, ready.kept, defers.grows);
      passed = omega (arith, ready.passed, run.on);
      inside = omega (arith, run.size, run.within, defers.behind);
      running = inr (
        defers.behind,
        whole ∙ sym run.size,
        inr (later.0 ∙ start, subst IsCut (rest_same q buf' ahead) later.1),
      );
    }

    sorted_Runs :
        p.end_bad_moves ≡ p.end_bad_captures
        → IsCut (unread p buf)
        → Runs (select_good_quiet_sorted p buf)
    unfolding select_good_quiet_sorted
    sorted_Runs start cut =
        let (found, q, buf', runs, run, defers, later) =
          sorted_loop-RunsTo count p buf (omega arith) (ready.passed) (omega arith) start cut in
        (
          found,
          q,
          buf',
          runs,
          run_of found q buf' ahead run defers (after_sorted found q buf' start run defers later),
        )

  nothing_read : p.end_cur ≤ p.cur → select_good_quiet p buf ≡ some (none, p, buf)
  unfolding select_good_quiet select_good_quiet_walk select_good_quiet_sorted deferring_loop
      sorted_loop
  nothing_read done =
      let zero_left : count ≡ 0 = omega arith in
      ap
        (λ (n : ℕ).
          if sorted_past p.depth then sorted_loop n p buf else deferring_loop is_good_quiet n p buf)
        zero_left
      ∙ elim (Bool-cases (sorted_past p.depth)) [
        | inl past ↦ rw past refl
        | inr early ↦ rw early refl
      ]

  nothing_Runs : p.end_cur ≤ p.cur → QuietRun p buf none p buf
  nothing_Runs done = record {
    same = refl;
    accepted = refl;
    front = refl;
    after = (done, ready.inside, omega (arith, ready.kept, ready.inside));
  }

  form_Runs :
      p.end_bad_moves ≤ p.cur
      → p.cur ≤ p.end_cur
      → p.end_cur ≡ length buf
      → (sorted_past p.depth ≡ false)
        ⊎ ((p.end_bad_moves ≡ p.end_bad_captures) × IsCut (unread p buf))
      → Runs (select_good_quiet p buf)
  unfolding select_good_quiet
  form_Runs behind ahead whole (inl early) =
      let branch =
        λ (b : Bool). if b then select_good_quiet_sorted p buf else select_good_quiet_walk p buf in
      subst (λ b. Runs (branch b)) (sym early) (walk_Runs behind ahead whole early)
  form_Runs behind ahead whole (inr (start, cut)) =
      let branch =
        λ (b : Bool). if b then select_good_quiet_sorted p buf else select_good_quiet_walk p buf in
      elim (Bool-cases (sorted_past p.depth)) [
        | inl past ↦
            subst (λ b. Runs (branch b)) (sym past) (sorted_Runs behind ahead whole start cut)
        | inr early ↦ subst (λ b. Runs (branch b)) (sym early) (walk_Runs behind ahead whole early)
      ]

  -- Which of the two forms runs makes no difference to what the stage needs.
  quiet_Runs : Runs (select_good_quiet p buf)
  quiet_Runs = elim ready.running [
    | inl done ↦ (none, p, buf, nothing_read done, nothing_Runs done)
    | inr (behind, whole, form) ↦ elim (Bool-cases (leb p.end_cur p.cur)) [
      | inl done ↦
          let at_end : p.end_cur ≤ p.cur = leb→le p.end_cur p.cur done in
          (none, p, buf, nothing_read at_end, nothing_Runs at_end)
      | inr more ↦ form_Runs behind (ground (arith, more)) whole form
    ]
  ]

module _ (node : Node) (p : MovePicker) (buf : MoveBuf) (at : p.stage ≡ good_quiet) where
  abbrev order : MoveBuf → MoveBuf → List Move
  order bad l = moves (good p l) ++ moves (bad ++ others p l)

  with_quiets-moves : (bad l : MoveBuf) → moves (with_quiets p.tt_move bad l) ≡ order bad l
  unfolding with_quiets
  with_quiets-moves bad l = moves-append (good p l) (bad ++ others p l)

  pending_run :
      (found : Option Move) (q : MovePicker) (buf' : MoveBuf)
      → QuietRun p buf found q buf'
      → pending node p buf
        ≡ one found
          ++ order (pick (is_fresh p.tt_move) (entries buf' 0 q.end_bad_moves)) (rest p q buf')
  unfolding pending pending_from pending_at
  pending_run found q buf' run =
      ap (λ s. pending_from s node p buf) at
      ∙ with_quiets-moves (deferred p buf) (unread p buf)
      ∙ ap₂ (λ a b. a ++ moves b) run.accepted (sym run.front)
      ∙ append_assoc (one found) (moves (good p (rest p q buf'))) (
          moves (
            pick (is_fresh p.tt_move) (entries buf' 0 q.end_bad_moves) ++ others p (rest p q buf')))

  found_one :
      (m : Move) (q : MovePicker) (buf' : MoveBuf)
      → QuietRun p buf (some m) q buf'
      → Refines node p buf (returns m q buf')
  unfolding pending pending_from pending_at ReadyAt
  found_one m q buf' run =
      let later : pending node q buf'
          ≡ order (pick (is_fresh p.tt_move) (entries buf' 0 q.end_bad_moves)) (rest p q buf') =
        ap (λ r. pending node r buf') run.same
        ∙ ap (λ s. pending_from s node (moved p q) buf') at
        ∙ with_quiets-moves (pick (is_fresh p.tt_move) (entries buf' 0 q.end_bad_moves))
            (rest p q buf') in
      (
        subst (λ r. IsReady node r buf') (sym run.same)
            (subst (λ s. ReadyAt s node (moved p q) buf') (sym at) run.after),
        ap next_of (pending_run (some m) q buf' run) ∙ ap (λ l. (m, l)) (sym later),
      )

  at_end :
      (q : MovePicker) (buf' : MoveBuf)
      → QuietRun p buf none q buf'
      → Refines node p buf (goes_on (enter_bad_moves (moved p q)) buf')
  unfolding enter_bad_moves pending pending_from pending_at ReadyAt entries pick moves
  at_end q buf' run =
      let bad = pick (is_fresh p.tt_move) (entries buf' 0 q.end_bad_moves) in
      let zero_left : p.end_cur - q.cur ≡ 0 = omega (arith, run.after.0) in
      let all : q.end_bad_moves - 0 ≡ q.end_bad_moves = omega arith in
      (
        (omega arith, run.after.1, run.after.2),
        ap moves (
              pick_fresh p.tt_move (entries buf' 0 (q.end_bad_moves - 0))
              ∙ ap (λ (n : ℕ). pick (is_fresh p.tt_move) (entries buf' 0 n)) all)
            ∙ sym (
                pending_run none q buf' run
                ∙ ap (λ (n : ℕ). order bad (entries buf' q.cur n)) zero_left
                ∙ ap moves (append_nil bad)),
        subst (λ s. 2 < rank s) (sym at) (omega arith),
      )

  after_run :
      (found : Option Move) (q : MovePicker) (buf' : MoveBuf)
      → QuietRun p buf found q buf'
      → PassRefines node p buf (after_quiets (found, q, buf'))
  after_run (some m) q buf' run = (returns m q buf', refl, found_one m q buf' run)
  after_run none q buf' run = (
    goes_on (enter_bad_moves (moved p q)) buf',
    ap (λ r. after_quiets (none, r, buf')) run.same,
    at_end q buf' run,
  )

  pub good_quiet-Refines :
      InQuiets p buf → PassRefines node p buf (select_good_quiet p buf >>= after_quiets)
  good_quiet-Refines ready =
      let (found, q, buf', runs, run) = quiet_Runs p buf ready in
      let (pass, ends, refines) = after_run found q buf' run in
      (pass, ap (λ o. o >>= after_quiets) runs ∙ ends, refines)
