-- ===== src/Search/MovePicker/Drain.antt =====
-- A picker that is called to its end.
use rfish.Prelude.{ℕ, zero, suc, ◌<◌, ◌≡◌, ◌∙◌, refl, arith, ap, sym, subst}
use rfish.Prelude.{false, ◌==◌, if◌then◌else◌}
use rfish.Prelude.{Option, none, some, ◌>>=◌, List, [], ◌∷◌, length}
use rfish.Board.Move.{Move, no_move}
use rfish.Search.MovePicker.{Node, MovePicker, MoveBuf, next_move}
use rfish.Search.MovePicker.Pending.{pending, HasRoom, IsReady, next_of}
use rfish.Search.MovePicker.Count.{count_by}
use rfish.Search.MovePicker.Refinement.{next_move-Pops}

-- The loop of a caller: moves until there is none, on fuel.
unfoldable pub drain : ℕ → Node → MovePicker → MoveBuf → Option (List Move)
unfolding next_move
drain zero node p buf = none
drain (suc n) node p buf = next_move node p buf >>= λ r.
    let rest = (drain n node r.1 r.2 >>= λ ms. some (r.0 ∷ ms)) in
    if r.0 == no_move then some [] else rest

abbrev pub count : Move → List Move → ℕ
count m ms = count_by (λ x. x == m) ms

-- Two lists have the same moves, each as often.
abbrev pub SameMoves : List Move → List Move → Type 0
SameMoves xs ys = (m : Move) → count m xs ≡ count m ys

drain-some :
    (n : ℕ) (node : Node) (p : MovePicker) (buf : MoveBuf) (m : Move) (ms : List Move)
    (q : MovePicker) (out : MoveBuf)
    → next_move node p buf ≡ some (m, q, out)
    → (m == no_move) ≡ false
    → drain n node q out ≡ some ms
    → drain (suc n) node p buf ≡ some (m ∷ ms)
unfolding drain
drain-some n node p buf m ms q out runs real rest =
    ap
      (λ o. o >>= λ (r : Move × MovePicker × MoveBuf).
        if r.0 == no_move
        then some []
        else (drain n node r.1 r.2 >>= λ (ms : List Move). some (r.0 ∷ ms)))
      runs
    ∙ ap (λ b. if b then some [] else (drain n node q out >>= λ (ms : List Move). some (m ∷ ms)))
        real
    ∙ ap (λ o. o >>= λ (ms : List Move). some (m ∷ ms)) rest

drain_none :
    (n : ℕ) (node : Node) (p : MovePicker) (buf : MoveBuf) (q : MovePicker) (out : MoveBuf)
    → next_move node p buf ≡ some (no_move, q, out)
    → drain (suc n) node p buf ≡ some []
unfolding drain
drain_none n node p buf q out runs =
    ap
      (λ o. o >>= λ (r : Move × MovePicker × MoveBuf).
        if r.0 == no_move
        then some []
        else (drain n node r.1 r.2 >>= λ (ms : List Move). some (r.0 ∷ ms)))
      runs

module _ (node : Node) (room : HasRoom node) where
  -- Enough calls yield all that is pending, in its order.
  drain_all :
      (n : ℕ) (ms : List Move) (p : MovePicker) (buf : MoveBuf)
      → IsReady node p buf
      → pending node p buf ≡ ms
      → count no_move ms ≡ 0
      → length ms < n
      → drain n node p buf ≡ some ms
  unfolding count_by
  drain_all zero ms p buf ready here real enough = absurd (omega arith)
  drain_all (suc n) [] p buf ready here real enough =
      let (m, q, out, runs, next, popped) = next_move-Pops node room p buf ready in
      let front : m ≡ no_move = ap (λ r. r.0) (sym popped ∙ ap next_of here) in
      drain_none n node p buf q out
        (subst (λ x. next_move node p buf ≡ some (x, q, out)) front runs)
  drain_all (suc n) (a ∷ ms) p buf ready here real enough =
      let (m, q, out, runs, next, popped) = next_move-Pops node room p buf ready in
      let front : m ≡ a = ap (λ r. r.0) (sym popped ∙ ap next_of here) in
      let later : pending node q out ≡ ms = ap (λ r. r.1) (sym popped ∙ ap next_of here) in
      drain-some n node p buf a ms q out
        (subst (λ x. next_move node p buf ≡ some (x, q, out)) front runs) (ground (arith, real))
        (drain_all n ms q out next later (ground (arith, real)) (omega arith))

  -- For a node whose captures and quiets together, and whose evasions, are at most the 256 moves of the
  -- buffer: a ready picker from which more calls are made than moves are pending, none of them the move
  -- that stands for none, yields exactly these, in order, and then no move.
  pub drain-pending :
      (n : ℕ) (p : MovePicker) (buf : MoveBuf)
      → IsReady node p buf
      → count no_move (pending node p buf) ≡ 0
      → length (pending node p buf) < n
      → drain n node p buf ≡ some (pending node p buf)
  drain-pending n p buf ready real enough =
      drain_all n (pending node p buf) p buf ready refl real enough
