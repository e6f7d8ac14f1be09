-- ===== src/Search/MovePicker/Steps.antt =====
-- What one run of each of the picker's loops does, in terms of the lists that are still unread and
-- already deferred.
use rfish.Prelude.{ℕ, zero, suc, ◌+◌, ◌-◌, ◌≤◌, ◌≡◌, ◌∙◌, refl, arith, ap, sym}
use rfish.Prelude.{Bool, true, false, if◌then◌else◌, Bool-cases, inl, inr}
use rfish.Prelude.{Option, none, some, >>=-some, List, [], ◌∷◌, ◌++◌, length}
use rfish.Prelude.{get_elem?, get_elem?-of_lt, entries, entries-cons}
use rfish.Board.Move.{Move}
use rfish.Search.MoveSort.{ScoredMove}
use rfish.Search.MovePicker.{MovePicker, MoveBuf, select_loop}
use rfish.Search.MovePicker.Pending.{pick, moves, taken}

abbrev pub one : Option Move → List Move
one none = []
one (some m) = m ∷ []

abbrev pub Ends : Option Move → ℕ → ℕ → Type 0
Ends none k end = k ≡ end
Ends (some m) k end = Unit

pub pick-append :
    (test : ScoredMove → Bool) (xs ys : MoveBuf)
    → pick test (xs ++ ys) ≡ pick test xs ++ pick test ys
unfolding pick
pick-append test [] ys = refl
pick-append test (x ∷ xs) ys = elim (Bool-cases (test x)) [
  | inl yes_x ↦ rw yes_x (ap (λ l. x ∷ l) (pick-append test xs ys))
  | inr no_x ↦ rw no_x (pick-append test xs ys)
]

pub pick-yes :
    (test : ScoredMove → Bool) (sm : ScoredMove) (l : MoveBuf)
    → test sm ≡ true
    → pick test (sm ∷ l) ≡ sm ∷ pick test l
unfolding pick
pick-yes test sm l h = rw h refl

pub pick-no :
    (test : ScoredMove → Bool) (sm : ScoredMove) (l : MoveBuf)
    → test sm ≡ false
    → pick test (sm ∷ l) ≡ pick test l
unfolding pick
pick-no test sm l h = rw h refl

-- A run over `n` entries of the buffer that has come to a result.
pub record Passed (accepts : ScoredMove → Bool) (n : ℕ) (p : MovePicker) (buf : MoveBuf)
    (found : Option Move) (p' : MovePicker) (buf' : MoveBuf) : Type 0 where
  pub same : p' ≡ record p { cur = p'.cur; end_bad_moves = p'.end_bad_moves }
  pub size : length buf' ≡ length buf
  pub on : p.cur ≤ p'.cur
  pub within : p'.cur ≤ p.cur + n
  pub ends : Ends found p'.cur (p.cur + n)
  pub accepted :
      moves (pick (taken p.tt_move accepts) (entries buf p.cur n))
      ≡ one found
        ++ moves (pick (taken p.tt_move accepts) (entries buf' p'.cur (p.cur + n - p'.cur)))

abbrev pub Selects : (ScoredMove → Bool) → ℕ → MovePicker → MoveBuf → Type 0
Selects accepts n p buf =
    (r : Option Move × MovePicker) × (select_loop accepts n p buf ≡ some r)
    × Passed accepts n p buf r.0 r.1 buf

pub none_left : (l : MoveBuf) (k : ℕ) → entries l k (k + 0 - k) ≡ []
unfolding entries
none_left l k = let zero_left : k + 0 - k ≡ 0 = omega arith in ap (entries l k) zero_left

-- The end of a run is the same one entry on.
pub rest_after :
    (l : MoveBuf) (c n k : ℕ) → entries l k (c + 1 + n - k) ≡ entries l k (c + suc n - k)
rest_after l c n k = let next : c + 1 + n - k ≡ c + suc n - k = omega arith in ap (entries l k) next

pub rest_next :
    (l : MoveBuf) (c n : ℕ) → entries l (c + 1) (c + suc n - (c + 1)) ≡ entries l (c + 1) n
rest_next l c n = let next : c + suc n - (c + 1) ≡ n = omega arith in ap (entries l (c + 1)) next

module _ (accepts : ScoredMove → Bool) (p : MovePicker) (buf : MoveBuf) where
  abbrev test : ScoredMove → Bool
  test = taken p.tt_move accepts

  pub Passed-nil : Passed accepts 0 p buf none p buf
  unfolding entries pick moves
  Passed-nil = record {
    same = refl;
    size = refl;
    on = omega arith;
    within = omega arith;
    ends = omega arith;
    accepted = ap (λ l. moves (pick test l)) (sym (none_left buf p.cur));
  }

  module _ (n : ℕ) (sm : ScoredMove) (here : get_elem? buf p.cur ≡ some sm) where
    pub Passed-taken :
        test sm ≡ true
        → Passed accepts (suc n) p buf (some sm.mv) (record p { cur = p.cur + 1 }) buf
    unfolding moves
    Passed-taken good = record {
      same = refl;
      size = refl;
      on = omega arith;
      within = omega arith;
      ends = tt;
      accepted =
          ap (λ l. moves (pick test l)) (entries-cons buf p.cur n here)
          ∙ ap moves (pick-yes test sm (entries buf (p.cur + 1) n) good)
          ∙ ap (λ l. sm.mv ∷ moves (pick test l)) (sym (rest_next buf p.cur n));
    }

    -- An entry that is not taken, whatever was written behind the cursor.
    pub Passed-skipped :
        (e : ℕ) (between : MoveBuf) (found : Option Move) (p' : MovePicker) (buf' : MoveBuf)
        → test sm ≡ false
        → length between ≡ length buf
        → entries between (p.cur + 1) n ≡ entries buf (p.cur + 1) n
        → Passed accepts n (record p { cur = p.cur + 1; end_bad_moves = e }) between found p' buf'
        → Passed accepts (suc n) p buf found p' buf'
    Passed-skipped e between found p' buf' bad len kept run = record {
      same = run.same;
      size = run.size ∙ len;
      on = omega (arith, run.on);
      within = omega (arith, run.within);
      ends = ends_next found run.ends;
      accepted =
          ap (λ l. moves (pick test l)) (entries-cons buf p.cur n here)
          ∙ ap moves (pick-no test sm (entries buf (p.cur + 1) n) bad)
          ∙ ap (λ l. moves (pick test l)) (sym kept)
          ∙ run.accepted
          ∙ ap (λ l. one found ++ moves (pick test l)) (rest_after buf' p.cur n p'.cur);
    }
      where
        ends_next :
            (o : Option Move) → Ends o p'.cur (p.cur + 1 + n) → Ends o p'.cur (p.cur + suc n)
        ends_next none h = omega (arith, h)
        ends_next (some m) h = tt

    select_step : select_loop accepts (suc n) p buf ≡ (
        if test sm
        then some (some sm.mv, record p { cur = p.cur + 1 })
        else select_loop accepts n (record p { cur = p.cur + 1 }) buf)
    unfolding select_loop
    select_step = >>=-some (get_elem? buf p.cur) _ here

pub select_loop-Passed :
    (accepts : ScoredMove → Bool) (n : ℕ) (p : MovePicker) (buf : MoveBuf)
    → p.cur + n ≤ length buf
    → Selects accepts n p buf
unfolding select_loop
select_loop-Passed accepts zero p buf fits = ((none, p), refl, Passed-nil accepts p buf)
select_loop-Passed accepts (suc n) p buf fits =
    let (sm, here) = get_elem?-of_lt buf p.cur (omega arith) in
    let next = record p { cur = p.cur + 1 } in
    let (r, runs, passed) = select_loop-Passed accepts n next buf (omega arith) in
    let branch =
      λ (b : Bool). if b then some (some sm.mv, next) else select_loop accepts n next buf in
    elim (Bool-cases (taken p.tt_move accepts sm)) [
      | inl good ↦ (
        (some sm.mv, next),
        select_step accepts p buf n sm here ∙ ap branch good,
        Passed-taken accepts p buf n sm here good,
      )
      | inr bad ↦ (
        r,
        select_step accepts p buf n sm here ∙ ap branch bad ∙ runs,
        Passed-skipped accepts p buf n sm here p.end_bad_moves buf r.0 r.1 buf bad refl refl passed,
      )
    ]
