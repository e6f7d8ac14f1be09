-- ===== src/Search/MovePicker/Deferring.antt =====
-- The loops that defer moves to the front of the buffer: the captures', and the walk of the good quiets.
use rfish.Prelude.{ℕ, zero, suc, ◌+◌, ◌-◌, ◌≤◌, ◌<◌, ◌≡◌, ◌∙◌, refl, arith, ap, ap₂, sym, subst}
use rfish.Prelude.{◌==◌, Bool, true, false, if◌then◌else◌, Bool-cases, inl, inr}
use rfish.Prelude.{Option, none, some, ◌>>=◌, >>=-some, [], ◌∷◌, ◌++◌, length, length-set}
use rfish.Prelude.{get_elem?, get_elem?-of_lt, set, entries, entries-cons, entries-set}
use rfish.Prelude.{entries-set_last, append_assoc, lt→ltb}
use rfish.Board.Move.{Move}
use rfish.Search.MoveSort.{ScoredMove}
use rfish.Search.MovePicker.{MovePicker, MoveBuf, deferring_loop, defer}
use rfish.Search.MovePicker.Pending.{pick, is_fresh, taken, left}
use rfish.Search.MovePicker.Steps.{
  Passed, Passed-nil, Passed-taken, Passed-skipped, pick-append, pick-yes, pick-no, rest_after,
  rest_next, none_left,
}

-- What a run of a deferring loop leaves at the front of the buffer.
pub record Defers (accepts : ScoredMove → Bool) (n : ℕ) (p : MovePicker) (buf : MoveBuf)
    (p' : MovePicker) (buf' : MoveBuf) : Type 0 where
  pub grows : p.end_bad_moves ≤ p'.end_bad_moves
  pub behind : p'.end_bad_moves ≤ p'.cur
  pub front :
      pick (is_fresh p.tt_move) (entries buf' 0 p'.end_bad_moves)
        ++ pick (left p.tt_move accepts) (entries buf' p'.cur (p.cur + n - p'.cur))
      ≡ pick (is_fresh p.tt_move) (entries buf 0 p.end_bad_moves)
        ++ pick (left p.tt_move accepts) (entries buf p.cur n)

abbrev pub Behind : MovePicker → Type 0
Behind p = p.end_bad_moves ≤ p.cur

-- The run returns, and what it returns is as the two records say.
abbrev pub RunsTo :
    (ScoredMove → Bool)
    → ℕ
    → MovePicker
    → MoveBuf
    → Option (Option Move × MovePicker × MoveBuf)
    → Type 0
RunsTo accepts n p buf run =
    (found : Option Move) × (p' : MovePicker) × (buf' : MoveBuf) × (run ≡ some (found, p', buf'))
    × Passed accepts n p buf found p' buf'
    × Defers accepts n p buf p' buf'

module _ (accepts : ScoredMove → Bool) (p : MovePicker) (buf : MoveBuf) where
  abbrev fresh : ScoredMove → Bool
  fresh = is_fresh p.tt_move

  abbrev stays : ScoredMove → Bool
  stays = left p.tt_move accepts

  pub Defers-nil : p.end_bad_moves ≤ p.cur → Defers accepts 0 p buf p buf
  unfolding entries
  Defers-nil behind = record {
    grows = omega arith;
    behind = omega arith;
    front =
        ap (λ l. pick fresh (entries buf 0 p.end_bad_moves) ++ pick stays l) (none_left buf p.cur);
  }

  module _ (n : ℕ) (sm : ScoredMove) (here : get_elem? buf p.cur ≡ some sm) where
    pub Defers-taken :
        p.end_bad_moves ≤ p.cur
        → stays sm ≡ false
        → Defers accepts (suc n) p buf (record p { cur = p.cur + 1 }) buf
    Defers-taken behind good = record {
      grows = omega arith;
      behind = omega arith;
      front =
          ap (λ l. pick fresh (entries buf 0 p.end_bad_moves) ++ l)
            (ap (pick stays) (rest_next buf p.cur n)
              ∙ sym (pick-no stays sm (entries buf (p.cur + 1) n) good)
              ∙ sym (ap (pick stays) (entries-cons buf p.cur n here)));
    }

    pub Defers-skipped :
        (e : ℕ) (between : MoveBuf) (p' : MovePicker) (buf' : MoveBuf)
        → p.end_bad_moves ≤ e
        → pick fresh (entries between 0 e) ++ pick stays (entries between (p.cur + 1) n)
          ≡ pick fresh (entries buf 0 p.end_bad_moves)
            ++ pick stays (sm ∷ entries buf (p.cur + 1) n)
        → Defers accepts n (record p { cur = p.cur + 1; end_bad_moves = e }) between p' buf'
        → Defers accepts (suc n) p buf p' buf'
    Defers-skipped e between p' buf' le moved run = record {
      grows = omega (arith, le, run.grows);
      behind = run.behind;
      front =
          ap (λ l. pick fresh (entries buf' 0 p'.end_bad_moves) ++ pick stays l)
            (sym (rest_after buf' p.cur n p'.cur))
          ∙ run.front
          ∙ moved
          ∙ ap (λ l. pick fresh (entries buf 0 p.end_bad_moves) ++ pick stays l)
              (sym (entries-cons buf p.cur n here));
    }

    -- A deferred entry stands behind those that were deferred before.
    moved_one :
        p.end_bad_moves ≤ p.cur
        → p.cur < length buf
        → fresh sm ≡ true
        → stays sm ≡ true
        → pick fresh (entries (set buf p.end_bad_moves sm) 0 (p.end_bad_moves + 1))
            ++ pick stays (entries (set buf p.end_bad_moves sm) (p.cur + 1) n)
          ≡ pick fresh (entries buf 0 p.end_bad_moves)
            ++ pick stays (sm ∷ entries buf (p.cur + 1) n)
    unfolding pick
    moved_one behind inside new bad =
        let bads = pick fresh (entries buf 0 p.end_bad_moves) in
        let rest = entries buf (p.cur + 1) n in
        ap₂ (λ a b. pick fresh a ++ pick stays b)
          (entries-set_last buf p.end_bad_moves sm (omega arith))
          (entries-set buf (p.cur + 1) n p.end_bad_moves sm (omega arith))
        ∙ ap (λ a. a ++ pick stays rest)
            (pick-append fresh (entries buf 0 p.end_bad_moves) (sm ∷ [])
              ∙ ap (λ a. bads ++ a) (pick-yes fresh sm [] new))
        ∙ append_assoc bads (sm ∷ []) (pick stays rest)
        ∙ ap (λ a. bads ++ a) (sym (pick-yes stays sm rest bad))

    abbrev pass_one : Bool → Bool → Option (Option Move × MovePicker × MoveBuf)
    pass_one is_tt good =
        let next = record p { cur = p.cur + 1 } in
        if is_tt
        then deferring_loop accepts n next buf
        else if good
        then some (some sm.mv, next, buf)
        else (defer sm next buf >>= λ r. deferring_loop accepts n r.0 r.1)

    deferring_step :
        deferring_loop accepts (suc n) p buf ≡ pass_one (sm.mv == p.tt_move) (accepts sm)
    unfolding deferring_loop
    deferring_step = >>=-some (get_elem? buf p.cur) _ here

    deferred_one :
        p.end_bad_moves < length buf
        → pass_one false false
          ≡ deferring_loop accepts n
              (record p { cur = p.cur + 1; end_bad_moves = p.end_bad_moves + 1 })
              (set buf p.end_bad_moves sm)
    unfolding defer
    deferred_one room = rw (lt→ltb p.end_bad_moves (length buf) room) refl

    -- Each of the three ways, from the run over the rest.
    abbrev one_on : MovePicker
    one_on = record p { cur = p.cur + 1 }

    abbrev one_deferred : MovePicker
    one_deferred = record p { cur = p.cur + 1; end_bad_moves = p.end_bad_moves + 1 }

    run_past :
        (sm.mv == p.tt_move) ≡ true
        → RunsTo accepts n one_on buf (deferring_loop accepts n one_on buf)
        → RunsTo accepts (suc n) p buf (pass_one (sm.mv == p.tt_move) (accepts sm))
    run_past is_tt (found, p', buf', runs, passed, defers) =
        let not_taken : taken p.tt_move accepts sm ≡ false = rw is_tt refl in
        let not_left : stays sm ≡ false = rw is_tt refl in
        (
          found,
          p',
          buf',
          ap (λ b. pass_one b (accepts sm)) is_tt ∙ runs,
          Passed-skipped accepts p buf n sm here p.end_bad_moves buf found p' buf' not_taken refl
              refl passed,
          Defers-skipped p.end_bad_moves buf p' buf' (omega arith)
              (ap (λ l. pick fresh (entries buf 0 p.end_bad_moves) ++ l)
                (sym (pick-no stays sm (entries buf (p.cur + 1) n) not_left)))
              defers,
        )

    run_found :
        p.end_bad_moves ≤ p.cur
        → (sm.mv == p.tt_move) ≡ false
        → accepts sm ≡ true
        → RunsTo accepts (suc n) p buf (pass_one (sm.mv == p.tt_move) (accepts sm))
    run_found behind is_new good =
        let is_taken : taken p.tt_move accepts sm ≡ true = rw (is_new, good) refl in
        let not_left : stays sm ≡ false = rw (is_new, good) refl in
        (
          some sm.mv,
          one_on,
          buf,
          ap₂ pass_one is_new good,
          Passed-taken accepts p buf n sm here is_taken,
          Defers-taken behind not_left,
        )

    run_deferred :
        p.end_bad_moves ≤ p.cur
        → p.cur < length buf
        → (sm.mv == p.tt_move) ≡ false
        → accepts sm ≡ false
        → RunsTo accepts n one_deferred
            (set buf p.end_bad_moves sm)
            (deferring_loop accepts n one_deferred (set buf p.end_bad_moves sm))
        → RunsTo accepts (suc n) p buf (pass_one (sm.mv == p.tt_move) (accepts sm))
    run_deferred behind inside is_new bad (found, p', buf', runs, passed, defers) =
        let not_taken : taken p.tt_move accepts sm ≡ false = rw (is_new, bad) refl in
        let is_left : stays sm ≡ true = rw (is_new, bad) refl in
        let is_fresh_one : fresh sm ≡ true = rw is_new refl in
        let between = set buf p.end_bad_moves sm in
        (
          found,
          p',
          buf',
          ap₂ pass_one is_new bad ∙ deferred_one (omega arith) ∙ runs,
          Passed-skipped accepts p buf n sm here (p.end_bad_moves + 1) between found p' buf'
              not_taken (length-set buf p.end_bad_moves sm)
              (entries-set buf (p.cur + 1) n p.end_bad_moves sm (omega arith)) passed,
          Defers-skipped (p.end_bad_moves + 1) between p' buf' (omega arith)
              (moved_one behind inside is_fresh_one is_left) defers,
        )

pub deferring_loop-RunsTo :
    (accepts : ScoredMove → Bool) (n : ℕ) (p : MovePicker) (buf : MoveBuf)
    → p.end_bad_moves ≤ p.cur
    → p.cur + n ≤ length buf
    → RunsTo accepts n p buf (deferring_loop accepts n p buf)
unfolding deferring_loop
deferring_loop-RunsTo accepts zero p buf behind fits =
    (none, p, buf, refl, Passed-nil accepts p buf, Defers-nil accepts p buf (omega arith))
deferring_loop-RunsTo accepts (suc n) p buf behind fits =
    let (sm, here) = get_elem?-of_lt buf p.cur (omega arith) in
    let back =
      subst (RunsTo accepts (suc n) p buf) (sym (deferring_step accepts p buf n sm here)) in
    let past =
      deferring_loop-RunsTo accepts n (record p { cur = p.cur + 1 }) buf (omega arith)
        (omega arith) in
    let onward =
      deferring_loop-RunsTo accepts n
        (record p { cur = p.cur + 1; end_bad_moves = p.end_bad_moves + 1 })
        (set buf p.end_bad_moves sm) (omega arith)
        (omega (arith, length-set buf p.end_bad_moves sm)) in
    elim (Bool-cases (sm.mv == p.tt_move)) [
      | inl is_tt ↦ back (run_past accepts p buf n sm here is_tt past)
      | inr is_new ↦ elim (Bool-cases (accepts sm)) [
        | inl good ↦ back (run_found accepts p buf n sm here (omega arith) is_new good)
        | inr bad ↦
            back (run_deferred accepts p buf n sm here behind (omega arith) is_new bad onward)
      ]
    ]
