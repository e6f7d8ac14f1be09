-- ===== src/Search/MovePicker/Skipping.antt =====
-- `skip_quiet_moves`: what stays pending are captures.
use rfish.Prelude.{ℕ, ◌-◌, ◌≤◌, ◌≡◌, ◌∙◌, refl, arith, ap, sym, subst, true, inl}
use rfish.Prelude.{[], ◌++◌, entries, append_nil}
use rfish.Search.MovePicker.{
  Node, MovePicker, MoveBuf, Stage, good_capture, good_quiet, bad_moves, skip_quiet_moves,
  cut_quiets, holds,
}
use rfish.Search.MovePicker.Pending.{
  pick, moves, is_fresh, taken, left, with_captures, with_quiets, behind_captures, deferred, unread,
  pending, pending_from, pending_at, ReadyAt, IsReady,
}
use rfish.Search.MovePicker.Capturing.{pick_fresh}

-- The stages of the main search behind its first move.
pub data IsMain : Stage → Type 0 where
  capturing : IsMain good_capture
  quieting : IsMain good_quiet
  ending : IsMain bad_moves

-- The captures that are still to come: good and then bad ones, all the bad ones, or the rest of these.
unfoldable pub captures_left : Stage → Node → MovePicker → MoveBuf → MoveBuf
unfolding pick entries
captures_left good_capture node p buf =
    pick (taken p.tt_move (holds node)) (unread p buf)
    ++ (deferred p buf ++ pick (left p.tt_move (holds node)) (unread p buf))
captures_left good_quiet node p buf = pick (is_fresh p.tt_move) (entries buf 0 p.end_bad_captures)
captures_left bad_moves node p buf =
    pick (is_fresh p.tt_move) (entries buf p.cur (p.end_bad_captures - p.cur))
captures_left _ node p buf = []

quiets_gone :
    (node : Node) (p : MovePicker) (buf : MoveBuf)
    → p.end_bad_captures ≤ p.cur
    → moves (
        with_quiets p.tt_move
          (pick (is_fresh p.tt_move) (entries buf 0 p.end_bad_captures))
          (entries buf p.cur (p.end_bad_captures - p.cur)))
      ≡ moves (pick (is_fresh p.tt_move) (entries buf 0 p.end_bad_captures))
unfolding with_quiets pick entries
quiets_gone node p buf passed =
    let bad = pick (is_fresh p.tt_move) (entries buf 0 p.end_bad_captures) in
    let zero_left : p.end_bad_captures - p.cur ≡ 0 = omega arith in
    ap (λ (n : ℕ). moves (with_quiets p.tt_move bad (entries buf p.cur n))) zero_left
    ∙ ap moves (append_nil bad)

skipped_at :
    (node : Node) (p : MovePicker) (buf : MoveBuf) {stage : Stage}
    → IsMain stage
    → ReadyAt stage node p buf
    → ReadyAt stage node (cut_quiets stage (record p { skip_quiets = true })) buf
      × (pending_from stage node (cut_quiets stage (record p { skip_quiets = true })) buf
          ≡ moves (captures_left stage node p buf))
unfolding cut_quiets ReadyAt pending_from pending_at captures_left with_captures behind_captures
skipped_at node p buf capturing ready = (
  record { behind = ready.behind; ahead = ready.ahead; whole = ready.whole; room = ready.room },
  refl,
)
skipped_at node p buf quieting ready = (
  record {
    kept = omega arith;
    passed = ready.passed;
    inside = omega (arith, ready.kept, ready.inside);
    running = inl ready.passed;
  },
  quiets_gone node p buf ready.passed,
)
skipped_at node p buf ending ready = (
  (ready.0, ready.2, ready.2),
  ap moves (pick_fresh p.tt_move (entries buf p.cur (p.end_bad_captures - p.cur))),
)

stage-cut_quiets : (stage : Stage) (p : MovePicker) → (cut_quiets stage p).stage ≡ p.stage
unfolding cut_quiets
stage-cut_quiets stage p = ground arith

-- From the main stages on, a picker that is told to skip quiets stays ready, and only captures of the
-- buffer are pending: good ones and then bad ones, all the bad ones, or the bad ones not yet yielded.
pub skip_quiet_moves_lem :
    (node : Node) (p : MovePicker) (buf : MoveBuf)
    → IsMain p.stage
    → IsReady node p buf
    → IsReady node (skip_quiet_moves p) buf
      × (pending node (skip_quiet_moves p) buf ≡ moves (captures_left p.stage node p buf))
unfolding skip_quiet_moves pending
skip_quiet_moves_lem node p buf main ready =
    let skipped = skipped_at node p buf main ready in
    let same : (cut_quiets p.stage (record p { skip_quiets = true })).stage ≡ p.stage =
      stage-cut_quiets p.stage (record p { skip_quiets = true }) in
    let q = cut_quiets p.stage (record p { skip_quiets = true }) in
    (
      subst (λ s. ReadyAt s node q buf) (sym same) skipped.0,
      ap (λ s. pending_from s node q buf) same ∙ skipped.1,
    )
