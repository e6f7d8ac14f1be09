-- ===== src/Search/MovePicker/Opening.antt =====
-- Generating, scoring and sorting: what the picker puts in its buffer when it opens a stage.
use rfish.Prelude.{ℕ, suc, ◌+◌, ◌≤◌, ◌≡◌, ◌∙◌, refl, arith, ap, ap₂, sym}
use rfish.Prelude.{some, ◌>>=◌, >>=-some, true, List, [], ◌∷◌, ◌++◌, length, length-append, take}
use rfish.Prelude.{append_assoc, append_nil, on_tail, on_tail-append, length-front, lt→ltb, ltb}
use rfish.Prelude.Int.{ℤ, pos}
use rfish.Board.Move.{Move}
use rfish.Board.MoveGen.{quiets}
use rfish.Search.MoveSort.{ScoredMove, partial_insertion_sort}
use rfish.Search.MoveSort.Length.{length-full_insertion_sort, length-partial_insertion_sort}
use rfish.Search.MovePicker.{
  Stage, Node, MovePicker, MoveBuf, good_quiet, max_moves, push_all, rescore, init_quiets,
  init_first_stage, quiet_sort_limit, first_kind,
}
use rfish.Search.MovePicker.Pending.{unscored, quiet_order, first_order, opened}

pub length-unscored : (ms : List Move) → length (unscored ms) ≡ length ms
unfolding unscored
length-unscored [] = refl
length-unscored (m ∷ ms) = ap suc (length-unscored ms)

pub length-rescore : (score : Move → ℤ) (buf : MoveBuf) → length (rescore score buf) ≡ length buf
unfolding rescore
length-rescore score [] = refl
length-rescore score (sm ∷ buf) = ap suc (length-rescore score buf)

pub push_all_lem :
    (ms : List Move) (buf : MoveBuf)
    → length buf + length ms ≤ max_moves
    → push_all ms buf ≡ some (buf ++ unscored ms)
unfolding push_all unscored
push_all_lem [] buf fits = ap some (sym (append_nil buf))
push_all_lem (m ∷ ms) buf fits =
    let entry : ScoredMove = record { mv = m; score = pos 0 } in
    let room : ltb (length buf) max_moves ≡ true = lt→ltb (length buf) max_moves (omega arith) in
    let rest =
      push_all_lem ms (buf ++ entry ∷ []) (omega (arith, length-append buf (entry ∷ []))) in
    rw room (rest ∙ ap some (append_assoc buf (entry ∷ []) (unscored ms)))

zero_more : (e : ℕ) → e + 0 ≡ e
zero_more e = omega arith

-- The quiets stand sorted behind the moves that were deferred.
pub init_quiets_lem :
    (node : Node) (p : MovePicker) (buf : MoveBuf)
    → p.end_bad_moves ≤ length buf
    → length buf + length (node.generate quiets) ≤ max_moves
    → init_quiets node p buf
      ≡ some (
        record p {
          cur = p.end_bad_moves;
          end_cur = p.end_bad_moves + length (node.generate quiets);
          stage = good_quiet;
        },
        take p.end_bad_moves buf ++ quiet_order node p.depth,
      )
unfolding init_quiets quiet_order
init_quiets_lem node p buf inside fits =
    let e = p.end_bad_moves in
    let qs = unscored (node.generate quiets) in
    let score = rescore (node.score quiets) in
    let sort = λ (l : MoveBuf). partial_insertion_sort l (quiet_sort_limit p.depth) in
    let kept : length (take e buf) ≡ e =
      ap length (sym (append_nil (take e buf))) ∙ length-front buf [] e inside ∙ zero_more e in
    let pushed = push_all_lem (node.generate quiets) (take e buf) (omega (arith, kept)) in
    let scored = on_tail-append score buf qs e inside in
    let sorted = on_tail-append sort buf (score qs) e inside in
    let size : length (on_tail e score (take e buf ++ qs)) ≡ e + length (node.generate quiets) =
      ap length scored
      ∙ length-front buf (score qs) e inside
      ∙ ap (λ n. e + n)
          (length-rescore (node.score quiets) qs ∙ length-unscored (node.generate quiets)) in
    let finish = λ (generated : MoveBuf). some (
      record p { cur = e; end_cur = length (on_tail e score generated); stage = good_quiet },
      on_tail e sort (on_tail e score generated),
    ) in
    ap (λ o. o >>= finish) pushed
    ∙ ap₂ (λ (n : ℕ) (l : MoveBuf). some (record p { cur = e; end_cur = n; stage = good_quiet }, l))
        size (ap (on_tail e sort) scored ∙ sorted)

pub init_first_stage_lem :
    (node : Node) (p : MovePicker)
    → length (node.generate (first_kind p.first_stage)) ≤ max_moves
    → init_first_stage node p ≡ some (opened node p, first_order node p.first_stage)
unfolding init_first_stage first_order
init_first_stage_lem node p fits =
    let pushed = push_all_lem (node.generate (first_kind p.first_stage)) [] (omega arith) in
    >>=-some (push_all (node.generate (first_kind p.first_stage)) []) _ pushed

pub length-quiet_order :
    (node : Node) (depth : ℤ) → length (quiet_order node depth) ≡ length (node.generate quiets)
unfolding quiet_order
length-quiet_order node depth =
    let qs = unscored (node.generate quiets) in
    length-partial_insertion_sort (rescore (node.score quiets) qs) (quiet_sort_limit depth)
    ∙ length-rescore (node.score quiets) qs
    ∙ length-unscored (node.generate quiets)

pub length-first_order :
    (node : Node) (stage : Stage)
    → length (first_order node stage) ≡ length (unscored (node.generate (first_kind stage)))
unfolding first_order
length-first_order node stage =
    let generated = unscored (node.generate (first_kind stage)) in
    length-full_insertion_sort (rescore (node.score (first_kind stage)) generated)
    ∙ length-rescore (node.score (first_kind stage)) generated
