-- ===== src/Search/MovePicker/Sorted.antt =====
-- The early stop of the good quiets: on a list that the partial sort has arranged it defers at once what
-- the walk would defer one by one.
use rfish.Prelude.{ℕ, zero, suc, ◌+◌, ◌-◌, ◌≤◌, ◌≡◌, ◌∙◌, refl, arith, ap, ap₂, sym, subst}
use rfish.Prelude.{◌==◌, Bool, true, false, not, if◌then◌else◌, Bool-cases, inl, inr}
use rfish.Prelude.{Option, none, some, >>=-some, [], ◌∷◌, ◌++◌, length, All}
use rfish.Prelude.{get_elem?, get_elem?-of_lt, entries, entries-cons, entries-append, entries-write}
use rfish.Prelude.{length-entries, length-write, append_nil, write}
use rfish.Board.Move.{Move}
use rfish.Search.MoveSort.{ScoredMove}
use rfish.Search.MovePicker.{MovePicker, MoveBuf, sorted_loop, defer_rest, is_good_quiet}
use rfish.Search.MovePicker.Pending.{pick, moves, is_fresh, taken, left, IsCut}
use rfish.Search.MovePicker.Steps.{
  Passed, Passed-nil, Passed-taken, Passed-skipped, pick-append, pick-no, rest_next, rest_after,
}
use rfish.Search.MovePicker.Deferring.{Defers, Defers-nil, Defers-taken, Defers-skipped}

abbrev AllBad : MoveBuf → Type 0
AllBad l = All (λ (x : ScoredMove). is_good_quiet x ≡ false) l

taken_bad : (tt_move : Move) (l : MoveBuf) → AllBad l → pick (taken tt_move is_good_quiet) l ≡ []
unfolding pick
taken_bad tt_move [] bad = refl
taken_bad tt_move (sm ∷ l) bad =
    let not_taken : taken tt_move is_good_quiet sm ≡ false = ground (arith, bad.0) in
    rw not_taken (taken_bad tt_move l bad.1)

left_bad :
    (tt_move : Move) (l : MoveBuf)
    → AllBad l
    → pick (left tt_move is_good_quiet) l ≡ pick (is_fresh tt_move) l
unfolding pick
left_bad tt_move [] bad = refl
left_bad tt_move (sm ∷ l) bad =
    let same : left tt_move is_good_quiet sm ≡ is_fresh tt_move sm = ground (arith, bad.0) in
    ap₂ (λ b r. if b then sm ∷ r else r) same (left_bad tt_move l bad.1)

tail-IsCut : (sm : ScoredMove) (l : MoveBuf) → IsCut (sm ∷ l) → IsCut l
unfolding IsCut
tail-IsCut sm l cut = cut.1

-- What is left when a move was found: nothing was deferred, and the rest is still in two parts.
abbrev pub Later : Option Move → ℕ → MovePicker → MovePicker → MoveBuf → Type 0
Later none end p p' buf = Unit
Later (some m) end p p' buf =
    (p'.end_bad_moves ≡ p.end_bad_moves) × IsCut (entries buf p'.cur (end - p'.cur))

abbrev pub SortedRunsTo :
    ℕ → MovePicker → MoveBuf → Option (Option Move × MovePicker × MoveBuf) → Type 0
SortedRunsTo n p buf run =
    (found : Option Move) × (p' : MovePicker) × (buf' : MoveBuf) × (run ≡ some (found, p', buf'))
    × Passed is_good_quiet n p buf found p' buf'
    × Defers is_good_quiet n p buf p' buf'
    × Later found (p.cur + n) p p' buf'

module _ (p : MovePicker) (buf : MoveBuf) where
  abbrev fresh : ScoredMove → Bool
  fresh = is_fresh p.tt_move

  -- The buffer after the copy.
  abbrev copied : ℕ → MoveBuf
  copied n =
      if p.cur == p.end_bad_captures
      then buf
      else write buf p.end_bad_captures (entries buf p.cur n)

  length-copied : (n : ℕ) → length (copied n) ≡ length buf
  length-copied n = elim (Bool-cases (p.cur == p.end_bad_captures)) [
    | inl at ↦ rw at refl
    | inr off ↦ rw off (length-write buf p.end_bad_captures (entries buf p.cur n))
  ]

  entries-copied :
      (n : ℕ)
      → p.end_bad_captures ≤ p.cur
      → p.cur + n ≤ length buf
      → entries (copied n) 0 (p.end_bad_captures + n)
        ≡ entries buf 0 p.end_bad_captures ++ entries buf p.cur n
  entries-copied n behind fits = elim (Bool-cases (p.cur == p.end_bad_captures)) [
    | inl at ↦
        let same : p.end_bad_captures ≡ p.cur = ground (arith, at) in
        let start : 0 + p.end_bad_captures ≡ p.cur = omega (arith, same) in
        rw at (
          entries-append buf 0 p.end_bad_captures n (omega arith)
          ∙ ap (λ k. entries buf 0 p.end_bad_captures ++ entries buf k n) start)
    | inr off ↦
        let size = length-entries buf p.cur n fits in
        rw off (
          ap
            (λ (k : ℕ).
              entries (write buf p.end_bad_captures (entries buf p.cur n)) 0
                (p.end_bad_captures + k))
            (sym size)
          ∙ entries-write buf p.end_bad_captures (entries buf p.cur n) (omega (arith, size)))
  ]

  module _ (n : ℕ) (end : p.end_cur ≡ p.cur + n) where
    abbrev count : ℕ
    count = p.end_cur - p.cur

    abbrev stopped : MovePicker
    stopped = record p { cur = p.end_cur; end_bad_moves = p.end_bad_moves + count }

    count_left : count ≡ n
    count_left = omega (arith, end)

    none_behind : (l : MoveBuf) → entries l p.end_cur (p.cur + n - p.end_cur) ≡ []
    unfolding entries
    none_behind l =
        let zero_left : p.cur + n - p.end_cur ≡ 0 = omega (arith, end) in
        ap (entries l p.end_cur) zero_left

    module _ (behind : p.end_bad_captures ≤ p.cur) (fits : p.end_cur ≤ length buf)
        (same_end : p.end_bad_moves ≡ p.end_bad_captures) (bad : AllBad (entries buf p.cur n)) where
      stopped-Passed : Passed is_good_quiet n p buf none stopped (copied count)
      unfolding moves pick
      stopped-Passed = record {
        same = refl;
        size = length-copied count;
        on = omega (arith, end);
        within = omega (arith, end);
        ends = omega (arith, end);
        accepted =
            ap moves (taken_bad p.tt_move (entries buf p.cur n) bad)
            ∙ sym (
                ap (λ l. moves (pick (taken p.tt_move is_good_quiet) l))
                  (none_behind (copied count)));
      }

      whole_front :
          entries (copied count) 0 (p.end_bad_moves + count)
          ≡ entries buf 0 p.end_bad_moves ++ entries buf p.cur n
      whole_front =
          ap (λ (k : ℕ). entries (copied count) 0 (k + count)) same_end
          ∙ entries-copied count behind (omega (arith, end))
          ∙ ap₂ (λ (k : ℕ) (m : ℕ). entries buf 0 k ++ entries buf p.cur m) (sym same_end)
              count_left

      stopped-Defers : Defers is_good_quiet n p buf stopped (copied count)
      unfolding pick
      stopped-Defers = record {
        grows = omega arith;
        behind = omega (arith, end, same_end);
        front =
            ap₂ (λ a b. pick fresh a ++ pick (left p.tt_move is_good_quiet) b) whole_front
              (none_behind (copied count))
            ∙ append_nil (pick fresh (entries buf 0 p.end_bad_moves ++ entries buf p.cur n))
            ∙ pick-append fresh (entries buf 0 p.end_bad_moves) (entries buf p.cur n)
            ∙ ap (λ l. pick fresh (entries buf 0 p.end_bad_moves) ++ l)
                (sym (left_bad p.tt_move (entries buf p.cur n) bad));
      }

  module _ (n : ℕ) (sm : ScoredMove) (here : get_elem? buf p.cur ≡ some sm) where
    abbrev one_on : MovePicker
    one_on = record p { cur = p.cur + 1 }

    abbrev pass_one : Bool → Bool → Option (Option Move × MovePicker × MoveBuf)
    pass_one good is_tt =
        if good
        then if not is_tt then some (some sm.mv, one_on, buf) else sorted_loop n one_on buf
        else some (none, (defer_rest p buf).0, (defer_rest p buf).1)

    sorted_step : sorted_loop (suc n) p buf ≡ pass_one (is_good_quiet sm) (sm.mv == p.tt_move)
    unfolding sorted_loop
    sorted_step = >>=-some (get_elem? buf p.cur) _ here

    run_stopped :
        p.end_cur ≡ p.cur + suc n
        → p.end_bad_captures ≤ p.cur
        → p.end_cur ≤ length buf
        → p.end_bad_moves ≡ p.end_bad_captures
        → is_good_quiet sm ≡ false
        → IsCut (sm ∷ entries buf (p.cur + 1) n)
        → SortedRunsTo (suc n) p buf (pass_one (is_good_quiet sm) (sm.mv == p.tt_move))
    unfolding defer_rest IsCut
    run_stopped end behind fits same_end low cut =
        let rest_bad : AllBad (entries buf (p.cur + 1) n) = elim cut.0 [
          | inl good ↦ absurd (cc)
          | inr others ↦ others
        ] in
        let bad = subst AllBad (sym (entries-cons buf p.cur n here)) (low, rest_bad) in
        (
          none,
          stopped (suc n) end,
          copied (p.end_cur - p.cur),
          ap (λ b. pass_one b (sm.mv == p.tt_move)) low,
          stopped-Passed (suc n) end behind fits same_end bad,
          stopped-Defers (suc n) end behind fits same_end bad,
          tt,
        )

    Later-next :
        (o : Option Move) (p' : MovePicker) (buf' : MoveBuf)
        → Later o (p.cur + 1 + n) one_on p' buf'
        → Later o (p.cur + suc n) p p' buf'
    Later-next none p' buf' h = tt
    Later-next (some m) p' buf' h = (h.0, subst IsCut (rest_after buf' p.cur n p'.cur) h.1)

    run_past :
        is_good_quiet sm ≡ true
        → (sm.mv == p.tt_move) ≡ true
        → SortedRunsTo n one_on buf (sorted_loop n one_on buf)
        → SortedRunsTo (suc n) p buf (pass_one (is_good_quiet sm) (sm.mv == p.tt_move))
    run_past good is_tt (found, p', buf', runs, passed, defers, later) =
        let not_taken : taken p.tt_move is_good_quiet sm ≡ false = rw is_tt refl in
        let not_left : left p.tt_move is_good_quiet sm ≡ false = rw is_tt refl in
        (
          found,
          p',
          buf',
          ap₂ pass_one good is_tt ∙ runs,
          Passed-skipped is_good_quiet p buf n sm here p.end_bad_moves buf found p' buf' not_taken
              refl refl passed,
          Defers-skipped is_good_quiet p buf n sm here p.end_bad_moves buf p' buf' (omega arith)
              (ap (λ l. pick fresh (entries buf 0 p.end_bad_moves) ++ l)
                (sym
                  (pick-no (left p.tt_move is_good_quiet) sm (entries buf (p.cur + 1) n) not_left)))
              defers,
          Later-next found p' buf' later,
        )

    run_found :
        p.end_bad_moves ≤ p.cur
        → is_good_quiet sm ≡ true
        → (sm.mv == p.tt_move) ≡ false
        → IsCut (entries buf (p.cur + 1) n)
        → SortedRunsTo (suc n) p buf (pass_one (is_good_quiet sm) (sm.mv == p.tt_move))
    run_found behind good is_new cut =
        let is_taken : taken p.tt_move is_good_quiet sm ≡ true = ground (arith, is_new, good) in
        let not_left : left p.tt_move is_good_quiet sm ≡ false = ground (arith, is_new, good) in
        (
          some sm.mv,
          one_on,
          buf,
          ap₂ pass_one good is_new,
          Passed-taken is_good_quiet p buf n sm here is_taken,
          Defers-taken is_good_quiet p buf n sm here behind not_left,
          (refl, subst IsCut (sym (rest_next buf p.cur n)) cut),
        )

pub sorted_loop-RunsTo :
    (n : ℕ) (p : MovePicker) (buf : MoveBuf)
    → p.end_cur ≡ p.cur + n
    → p.end_bad_captures ≤ p.cur
    → p.end_cur ≤ length buf
    → p.end_bad_moves ≡ p.end_bad_captures
    → IsCut (entries buf p.cur n)
    → SortedRunsTo n p buf (sorted_loop n p buf)
unfolding sorted_loop
sorted_loop-RunsTo zero p buf end behind fits same_end cut = (
  none,
  p,
  buf,
  refl,
  Passed-nil is_good_quiet p buf,
  Defers-nil is_good_quiet p buf (omega (arith, same_end)),
  tt,
)
sorted_loop-RunsTo (suc n) p buf end behind fits same_end cut =
    let (sm, here) = get_elem?-of_lt buf p.cur (omega arith) in
    let back = subst (SortedRunsTo (suc n) p buf) (sym (sorted_step p buf n sm here)) in
    let cut_here = subst IsCut (entries-cons buf p.cur n here) cut in
    elim (Bool-cases (is_good_quiet sm)) [
      | inr low ↦ back (run_stopped p buf n sm here end behind fits same_end low cut_here)
      | inl good ↦ elim (Bool-cases (sm.mv == p.tt_move)) [
        | inr is_new ↦ back (
            run_found p buf n sm here (omega (arith, same_end)) good is_new
              (tail-IsCut sm _ cut_here))
        | inl is_tt ↦ back (
            run_past p buf n sm here good is_tt (
              sorted_loop-RunsTo n (record p { cur = p.cur + 1 }) buf (omega (arith, end))
                (omega arith) fits same_end (tail-IsCut sm _ cut_here)))
      ]
    ]
