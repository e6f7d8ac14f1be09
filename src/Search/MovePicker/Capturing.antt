-- ===== src/Search/MovePicker/Capturing.antt =====
-- The stage of the good captures.
use rfish.Prelude.{ℕ, ◌+◌, ◌-◌, ◌≤◌, ◌<◌, ◌≡◌, ◌∙◌, refl, arith, ap, ap₂, sym, subst, true, false}
use rfish.Prelude.{
  if◌then◌else◌, ◌⊎◌, Bool-cases, inl, inr, Option, none, some, ◌>>=◌, List, [], ◌∷◌,
}
use rfish.Prelude.{◌++◌, length, take, append_nil, append_assoc, entries, entries-front}
use rfish.Prelude.{entries-back, length-front}
use rfish.Board.Move.{Move}
use rfish.Board.MoveGen.{quiets}
use rfish.Search.MovePicker.{
  Node, MovePicker, MoveBuf, good_capture, good_quiet, max_moves, returns, goes_on, deferring_loop,
  holds, after_captures, init_quiets, enter_bad_moves, sorted_past,
}
use rfish.Search.MovePicker.Pending.{
  pick, moves, is_fresh, taken, left, with_captures, with_quiets, behind_captures, quiet_order,
  deferred, unread, pending, pending_from, pending_at, InCaptures, ReadyAt, IsReady, IsCut, rank,
  next_of, Refines, PassRefines,
}
use rfish.Search.MovePicker.Steps.{Passed, one}
use rfish.Search.MovePicker.Deferring.{Defers, deferring_loop-RunsTo}
use rfish.Search.MovePicker.Cutting.{quiet-IsCut}
use rfish.Search.MovePicker.Opening.{init_quiets_lem, length-quiet_order}

pub moves-append : (xs ys : MoveBuf) → moves (xs ++ ys) ≡ moves xs ++ moves ys
unfolding moves
moves-append [] ys = refl
moves-append (x ∷ xs) ys = ap (λ l. x.mv ∷ l) (moves-append xs ys)

pub pick_fresh :
    (tt_move : Move) (l : MoveBuf) → pick (taken tt_move (λ sm. true)) l ≡ pick (is_fresh tt_move) l
unfolding pick
pick_fresh tt_move [] = refl
pick_fresh tt_move (sm ∷ l) =
    let same : taken tt_move (λ sm. true) sm ≡ is_fresh tt_move sm = ground arith in
    ap₂ (λ b r. if b then sm ∷ r else r) same (pick_fresh tt_move l)

module _ (node : Node) (p : MovePicker) (buf : MoveBuf) where
  abbrev count : ℕ
  count = p.end_cur - p.cur

  abbrev caps : MoveBuf → MoveBuf
  caps l = pick (taken p.tt_move (holds node)) l

  abbrev rest : MoveBuf → MoveBuf
  rest l = pick (left p.tt_move (holds node)) l

  -- What is pending, of the entries still to read and those deferred.
  abbrev order : MoveBuf → MoveBuf → List Move
  order bad l = moves (caps l) ++ moves (behind_captures node p (bad ++ rest l))

  with_captures-moves : (bad l : MoveBuf) → moves (with_captures node p bad l) ≡ order bad l
  unfolding with_captures
  with_captures-moves bad l = moves-append (caps l) (behind_captures node p (bad ++ rest l))

  behind_skipped : (bad : MoveBuf) → p.skip_quiets ≡ true → behind_captures node p bad ≡ bad
  unfolding behind_captures
  behind_skipped bad skip = rw skip refl

  behind_quiets :
      (bad : MoveBuf)
      → p.skip_quiets ≡ false
      → behind_captures node p bad ≡ with_quiets p.tt_move bad (quiet_order node p.depth)
  unfolding behind_captures
  behind_quiets bad no_skip = rw no_skip refl

  module _ (at : p.stage ≡ good_capture) (ready : InCaptures node p buf) where
    pending_here : pending node p buf ≡ order (deferred p buf) (unread p buf)
    unfolding pending pending_from pending_at
    pending_here =
        ap (λ s. pending_from s node p buf) at ∙ with_captures-moves (deferred p buf) (unread p buf)

    abbrev moved : MovePicker → MovePicker
    moved q = record p { cur = q.cur; end_bad_moves = q.end_bad_moves }

    abbrev RunOf : Option Move → MovePicker → MoveBuf → Type 0
    RunOf found q buf' =
        Passed (holds node) count p buf found q buf' × Defers (holds node) count p buf q buf'

    left_over : (q : MovePicker) (buf' : MoveBuf) → MoveBuf
    left_over q buf' = entries buf' q.cur (p.cur + count - q.cur)

    -- What a run found comes first, and the rest in its order.
    pending_run :
        (found : Option Move) (q : MovePicker) (buf' : MoveBuf)
        → RunOf found q buf'
        → pending node p buf
          ≡ one found
            ++ order (pick (is_fresh p.tt_move) (entries buf' 0 q.end_bad_moves)) (left_over q buf')
    unfolding left_over
    pending_run found q buf' (run, defers) =
        pending_here
        ∙ ap₂ (λ a b. a ++ moves (behind_captures node p b)) run.accepted (sym defers.front)
        ∙ append_assoc (one found) (moves (caps (entries buf' q.cur (p.cur + count - q.cur)))) (
            moves (
              behind_captures node p (
                pick (is_fresh p.tt_move) (entries buf' 0 q.end_bad_moves)
                ++ rest (entries buf' q.cur (p.cur + count - q.cur)))))

    found_one :
        (m : Move) (q : MovePicker) (buf' : MoveBuf)
        → RunOf (some m) q buf'
        → Refines node p buf (returns m q buf')
    unfolding pending pending_from pending_at ReadyAt left_over
    found_one m q buf' (run, defers) =
        let same_rest : p.cur + count - q.cur ≡ p.end_cur - q.cur =
          omega (arith, run.on, run.within, ready.ahead) in
        let later : pending node q buf'
            ≡ order (pick (is_fresh p.tt_move) (entries buf' 0 q.end_bad_moves))
                (left_over q buf') =
          ap (λ r. pending node r buf') run.same
          ∙ ap (λ s. pending_from s node (moved q) buf') at
          ∙ with_captures-moves (pick (is_fresh p.tt_move) (entries buf' 0 q.end_bad_moves))
              (entries buf' q.cur (p.end_cur - q.cur))
          ∙ ap
              (λ n.
                order (pick (is_fresh p.tt_move) (entries buf' 0 q.end_bad_moves))
                  (entries buf' q.cur n))
              (sym same_rest) in
        let here : InCaptures node (moved q) buf' = record {
          behind = defers.behind;
          ahead = omega (arith, run.within, ready.ahead);
          whole = ready.whole ∙ sym run.size;
          room =
              subst (λ n. n + length (node.generate quiets) ≤ max_moves) (sym run.size) ready.room;
        } in
        (
          subst (λ r. IsReady node r buf') (sym run.same)
              (subst (λ s. ReadyAt s node (moved q) buf') (sym at) here),
          ap next_of (pending_run (some m) q buf' (run, defers)) ∙ ap (λ l. (m, l)) (sym later),
        )

    -- With no good capture left, the rest of what is pending is behind the captures.
    pending_end :
        (q : MovePicker) (buf' : MoveBuf)
        → RunOf none q buf'
        → pending node p buf
          ≡ moves
              (behind_captures node p (pick (is_fresh p.tt_move) (entries buf' 0 q.end_bad_moves)))
    unfolding left_over entries pick moves
    pending_end q buf' (run, defers) =
        let bad = pick (is_fresh p.tt_move) (entries buf' 0 q.end_bad_moves) in
        let zero_left : p.cur + count - q.cur ≡ 0 = omega (arith, run.ends) in
        pending_run none q buf' (run, defers)
        ∙ ap (λ (n : ℕ). order bad (entries buf' q.cur n)) zero_left
        ∙ ap (λ l. moves (behind_captures node p l)) (append_nil bad)

    abbrev ended : MovePicker → MovePicker
    ended q = record p {
      cur = q.cur;
      end_bad_moves = q.end_bad_moves;
      end_bad_captures = q.end_bad_moves;
    }

    skipped :
        (q : MovePicker) (buf' : MoveBuf)
        → p.skip_quiets ≡ true
        → RunOf none q buf'
        → Refines node p buf (goes_on (enter_bad_moves (ended q)) buf')
    unfolding enter_bad_moves pending pending_from pending_at ReadyAt
    skipped q buf' skip (run, defers) =
        let inside : q.end_bad_moves ≤ length buf' =
          omega (arith, run.size, run.within, defers.behind, ready.whole, ready.ahead) in
        let all : q.end_bad_moves - 0 ≡ q.end_bad_moves = omega arith in
        let bad = pick (is_fresh p.tt_move) (entries buf' 0 q.end_bad_moves) in
        (
          (omega arith, inside, inside),
          ap moves (
                pick_fresh p.tt_move (entries buf' 0 (q.end_bad_moves - 0))
                ∙ ap (λ (n : ℕ). pick (is_fresh p.tt_move) (entries buf' 0 n)) all)
              ∙ sym (pending_end q buf' (run, defers) ∙ ap moves (behind_skipped bad skip)),
          subst (λ s. 2 < rank s) (sym at) (omega arith),
        )

    -- The quiets, opened behind the deferred captures.
    abbrev with_order : MovePicker → MovePicker
    with_order q = record (ended q) {
      cur = q.end_bad_moves;
      end_cur = q.end_bad_moves + length (node.generate quiets);
      stage = good_quiet;
    }

    opened_quiets :
        (q : MovePicker) (buf' : MoveBuf)
        → p.skip_quiets ≡ false
        → RunOf none q buf'
        → Refines node p buf
            (goes_on (with_order q) (take q.end_bad_moves buf' ++ quiet_order node p.depth))
    unfolding pending pending_from pending_at ReadyAt
    opened_quiets q buf' no_skip (run, defers) =
        let e = q.end_bad_moves in
        let qs = quiet_order node p.depth in
        let inside : e ≤ length buf' =
          omega (arith, run.size, run.within, defers.behind, ready.whole, ready.ahead) in
        let size = length-quiet_order node p.depth in
        let all : e + length (node.generate quiets) - e ≡ length qs = omega (arith, size) in
        let bad = pick (is_fresh p.tt_move) (entries buf' 0 e) in
        let unread_quiets : entries (take e buf' ++ qs) e (e + length (node.generate quiets) - e)
            ≡ qs =
          ap (entries (take e buf' ++ qs) e) all ∙ entries-back buf' qs e inside in
        (
          record {
            kept = omega arith;
            passed = omega arith;
            inside = omega (arith, length-front buf' qs e inside);
            running = inr (
              omega arith,
              omega (arith, length-front buf' qs e inside, size),
              subst (λ l. (sorted_past p.depth ≡ false) ⊎ ((e ≡ e) × IsCut l)) (sym unread_quiets)
                  (quiet-IsCut node p.depth e),
            );
          },
          ap₂
                (λ (b : MoveBuf) (l : MoveBuf).
                  moves (with_quiets p.tt_move (pick (is_fresh p.tt_move) b) l))
                (entries-front buf' qs e inside) unread_quiets
              ∙ sym (pending_end q buf' (run, defers) ∙ ap moves (behind_quiets bad no_skip)),
          subst (λ s. 3 < rank s) (sym at) (omega arith),
        )

    quiets_opened :
        (q : MovePicker) (buf' : MoveBuf)
        → p.skip_quiets ≡ false
        → RunOf none q buf'
        → after_captures node (none, moved q, buf')
          ≡ some (goes_on (with_order q) (take q.end_bad_moves buf' ++ quiet_order node p.depth))
    quiets_opened q buf' no_skip (run, defers) =
        let inside : q.end_bad_moves ≤ length buf' =
          omega (arith, run.size, run.within, defers.behind, ready.whole, ready.ahead) in
        let room : length buf' + length (node.generate quiets) ≤ max_moves =
          subst (λ n. n + length (node.generate quiets) ≤ max_moves) (sym run.size) ready.room in
        ap
          (λ b.
            if b
            then some (goes_on (enter_bad_moves (ended q)) buf')
            else (init_quiets node (ended q) buf' >>= λ r. some (goes_on r.0 r.1)))
          no_skip
        ∙ ap (λ o. o >>= λ r. some (goes_on r.0 r.1))
            (init_quiets_lem node (ended q) buf' inside room)

    after_run :
        (found : Option Move) (q : MovePicker) (buf' : MoveBuf)
        → RunOf found q buf'
        → PassRefines node p buf (after_captures node (found, q, buf'))
    after_run (some m) q buf' run = (returns m q buf', refl, found_one m q buf' run)
    after_run none q buf' run =
        let same = ap (λ r. after_captures node (none, r, buf')) (run.0.same) in
        elim (Bool-cases p.skip_quiets) [
          | inl skip ↦ (
            goes_on (enter_bad_moves (ended q)) buf',
            same
                ∙ ap
                    (λ b.
                      if b
                      then some (goes_on (enter_bad_moves (ended q)) buf')
                      else (init_quiets node (ended q) buf' >>= λ r. some (goes_on r.0 r.1)))
                    skip,
            skipped q buf' skip run,
          )
          | inr no_skip ↦ (
            goes_on (with_order q) (take q.end_bad_moves buf' ++ quiet_order node p.depth),
            same ∙ quiets_opened q buf' no_skip run,
            opened_quiets q buf' no_skip run,
          )
        ]

    pub good_capture-Refines :
        PassRefines node p buf
          (deferring_loop (holds node) (p.end_cur - p.cur) p buf >>= after_captures node)
    good_capture-Refines =
        let (found, q, buf', runs, run, defers) =
          deferring_loop-RunsTo (holds node) count p buf ready.behind
            (omega (arith, ready.ahead, ready.whole)) in
        let (pass, ends, refines) = after_run found q buf' (run, defers) in
        (pass, ap (λ o. o >>= after_captures node) runs ∙ ends, refines)
