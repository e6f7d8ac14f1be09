-- ===== src/Search/MovePicker/Refinement.antt =====
-- `next_move` takes moves from the front of what is pending, as one would from a queue.
use rfish.Prelude.{ℕ, zero, suc, ◌≤◌, ◌<◌, ◌≡◌, ◌∙◌, refl, arith, ap, sym, subst}
use rfish.Prelude.{true, Option, some, ◌>>=◌, length}
use rfish.Board.Move.{Move, no_move}
use rfish.Board.MoveGen.{captures}
use rfish.Search.MovePicker.{
  Node, MovePicker, MoveBuf, max_moves, Stage, tt_stage, init, good_capture, good_quiet, bad_moves,
  q_search, evasion, prob_cut, finished, Pass, returns, goes_on, pass_at, next_loop, next_move,
  first_kind,
}
use rfish.Search.MovePicker.Pending.{
  pending, pending_from, pending_at, first_order, opened, HasRoom, IsFirst, ReadyAt, IsReady, rank,
  next_of, Refines, PassRefines, main, quiescence, check, exchange,
}
use rfish.Search.MovePicker.Reading.{select-Refines}
use rfish.Search.MovePicker.Capturing.{good_capture-Refines}
use rfish.Search.MovePicker.Quieting.{good_quiet-Refines}
use rfish.Search.MovePicker.Opening.{init_first_stage_lem, length-first_order, length-unscored}

module _ (node : Node) (room : HasRoom node) where
  first_fits :
      {stage : Stage} → IsFirst stage → length (node.generate (first_kind stage)) ≤ max_moves
  first_fits main = omega (arith, room.main)
  first_fits quiescence = omega (arith, room.main)
  first_fits check = room.check
  first_fits exchange = omega (arith, room.main)

  opened_ready :
      (p : MovePicker) {stage : Stage}
      → IsFirst stage
      → p.first_stage ≡ stage
      → ReadyAt stage node (opened node p) (first_order node p.first_stage)
  unfolding ReadyAt
  opened_ready p main at =
      let size = length-first_order node p.first_stage in
      let count = length-unscored (node.generate (first_kind p.first_stage)) in
      let kind : length (node.generate (first_kind p.first_stage))
          ≡ length (node.generate captures) =
        ap (λ s. length (node.generate (first_kind s))) at in
      record {
        behind = omega arith;
        ahead = omega arith;
        whole = sym size;
        room = omega (arith, size, count, kind, room.main);
      }
  opened_ready p quiescence at = (omega arith, omega (arith, length-first_order node p.first_stage))
  opened_ready p check at = (omega arith, omega (arith, length-first_order node p.first_stage))
  opened_ready p exchange at = (omega arith, omega (arith, length-first_order node p.first_stage))

  first_low : {stage : Stage} → IsFirst stage → rank stage < 5
  first_low main = omega arith
  first_low quiescence = omega arith
  first_low check = omega arith
  first_low exchange = omega arith

  opened_pending :
      {stage : Stage} (p : MovePicker) (buf : MoveBuf)
      → IsFirst stage
      → p.first_stage ≡ stage
      → pending_from p.first_stage node (opened node p) (first_order node p.first_stage)
        ≡ pending_from init node p buf
  unfolding pending_from
  opened_pending p buf main at = rw at refl
  opened_pending p buf quiescence at = rw at refl
  opened_pending p buf check at = rw at refl
  opened_pending p buf exchange at = rw at refl

  pass-Refines :
      (stage : Stage) (p : MovePicker) (buf : MoveBuf)
      → p.stage ≡ stage
      → ReadyAt stage node p buf
      → PassRefines node p buf (pass_at stage node p buf)
  unfolding pass_at ReadyAt pending pending_from pending_at
  pass-Refines tt_stage p buf at ready = (
    returns p.tt_move (record p { stage = init }) buf,
    refl,
    (ready, ap (λ s. next_of (pending_from s node p buf)) at),
  )
  pass-Refines init p buf at first =
      let opens = init_first_stage_lem node p (first_fits first) in
      (
        goes_on (opened node p) (first_order node p.first_stage),
        ap (λ o. o >>= λ r. some (goes_on r.0 r.1)) opens,
        (
          opened_ready p first refl,
          opened_pending p buf first refl ∙ sym (ap (λ s. pending_from s node p buf) at),
          subst (λ s. rank p.first_stage < rank s) (sym at) (first_low first),
        ),
      )
  pass-Refines good_capture p buf at ready = good_capture-Refines node p buf at ready
  pass-Refines good_quiet p buf at ready = good_quiet-Refines node p buf at ready
  pass-Refines bad_moves p buf at ready =
      select-Refines node p buf bad_moves (λ sm. true) at (omega arith) (λ k e. refl)
        (λ k e inside. (inside, ready.1, ready.2)) ready.0 ready.1
  pass-Refines q_search p buf at ready =
      select-Refines node p buf q_search (λ sm. true) at (omega arith) (λ k e. refl)
        (λ k e inside. (inside, ready.1)) ready.0 ready.1
  pass-Refines evasion p buf at ready =
      select-Refines node p buf evasion (λ sm. true) at (omega arith) (λ k e. refl)
        (λ k e inside. (inside, ready.1)) ready.0 ready.1
  pass-Refines prob_cut p buf at ready =
      select-Refines node p buf prob_cut (λ sm. node.see_ge sm.mv p.threshold) at (omega arith)
        (λ k e. refl) (λ k e inside. (inside, ready.1)) ready.0 ready.1
  pass-Refines finished p buf at ready =
      let gone = ap (λ s. pending_from s node p buf) at in
      (
        returns no_move p buf,
        refl,
        (
          subst (λ s. ReadyAt s node p buf) (sym at) tt,
          ap next_of gone ∙ ap (λ l. (no_move, l)) (sym gone),
        ),
      )

  -- What a call leaves: a picker that is ready, with its move off the front of what was pending.
  abbrev pub Pops : MovePicker → MoveBuf → Option (Move × MovePicker × MoveBuf) → Type 0
  Pops p buf result =
      (m : Move) × (p' : MovePicker) × (buf' : MoveBuf) × (result ≡ some (m, p', buf'))
      × IsReady node p' buf'
      × (next_of (pending node p buf) ≡ (m, pending node p' buf'))

  rank_pos : (stage : Stage) → 0 < rank stage
  rank_pos stage = ground arith

  after_pass : ℕ → Pass → Option (Move × MovePicker × MoveBuf)
  after_pass fuel pass = elim pass [
    | returns m p' buf' ↦ some (m, p', buf')
    | goes_on p' buf' ↦ next_loop fuel node p' buf'
  ]

  after_pass-Pops :
      (fuel : ℕ) (p : MovePicker) (buf : MoveBuf)
      → rank p.stage ≤ suc fuel
      → ((q : MovePicker) (out : MoveBuf)
          → rank q.stage ≤ fuel
          → IsReady node q out
          → Pops q out (next_loop fuel node q out))
      → (pass : Pass) → Refines node p buf pass
      → Pops p buf (after_pass fuel pass)
  unfolding after_pass
  after_pass-Pops fuel p buf enough later (returns m p' buf') refines =
      (m, p', buf', refl, refines.0, refines.1)
  after_pass-Pops fuel p buf enough later (goes_on p' buf') refines =
      let (m, q, out, runs, ready, popped) =
        later p' buf' (omega (arith, refines.2, enough)) refines.0 in
      (m, q, out, runs, ready, ap next_of (sym refines.1) ∙ popped)

  next_loop-Pops :
      (fuel : ℕ) (p : MovePicker) (buf : MoveBuf)
      → rank p.stage ≤ fuel
      → IsReady node p buf
      → Pops p buf (next_loop fuel node p buf)
  unfolding next_loop after_pass
  next_loop-Pops zero p buf enough ready = absurd (omega (arith, rank_pos p.stage))
  next_loop-Pops (suc fuel) p buf enough ready =
      let (pass, runs, refines) = pass-Refines p.stage p buf refl ready in
      subst (Pops p buf) (sym (ap (λ o. o >>= after_pass fuel) runs))
        (after_pass-Pops fuel p buf enough (next_loop-Pops fuel) pass refines)

  rank_low : (stage : Stage) → rank stage ≤ 6
  rank_low stage = ground arith

  -- For a node whose captures and quiets together, and whose evasions, are at most the 256 moves of the
  -- buffer: a call on a picker that is ready returns the front of what is pending, or no move when
  -- nothing is, and leaves a picker that is ready with the rest pending.
  pub next_move-Pops :
      (p : MovePicker) (buf : MoveBuf) → IsReady node p buf → Pops p buf (next_move node p buf)
  unfolding next_move
  next_move-Pops p buf ready = next_loop-Pops 6 p buf (rank_low p.stage) ready
