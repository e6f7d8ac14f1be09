-- ===== src/Search/MovePicker/Complete.antt =====
-- A new picker, called to its end, yields every generated move once.
use rfish.Prelude.{◌+◌, ◌≤◌, ◌≡◌, ◌∙◌, ◌⊎◌, refl, arith, ap, sym}
use rfish.Prelude.{Bool, true, false, ◌&&◌, ◌==◌, if◌then◌else◌, Bool-cases, inl, inr}
use rfish.Prelude.{some, List, [], ◌∷◌, ◌++◌, length}
use rfish.Prelude.Int.{ℤ, pos, ltb_ℤ}
use rfish.Board.Move.{Move, no_move, is_ok}
use rfish.Board.MoveGen.{captures, quiets, evasions}
use rfish.Search.MoveSort.Tally.{unit_if}
use rfish.Search.MovePicker.{
  Node, MovePicker, Stage, good_capture, q_search, evasion, tt_stage, init, new, first_kind,
}
use rfish.Search.MovePicker.Pending.{
  pending, pending_from, pending_at, moves, opened, first_order, HasRoom, IsReady, ReadyAt, IsFirst,
  main, quiescence, check, next_of,
}
use rfish.Search.MovePicker.Count.{
  count_by, count_by-append, count_by-le_length, but_tt, count_opened_captures,
  count_opened_reading,
}
use rfish.Search.MovePicker.Drain.{drain, count, SameMoves, drain-pending}

-- The moves that are generated for a node: the evasions, or the captures and, above depth zero, the
-- quiets.
unfoldable pub generated : Node → ℤ → List Move
generated node depth =
    if node.in_check
    then node.generate evasions
    else if ltb_ℤ (pos 0) depth
    then node.generate captures ++ node.generate quiets
    else node.generate captures

abbrev kind_of : Bool → Bool → Stage
kind_of checked searched = if checked then evasion else if searched then good_capture else q_search

kind_of-IsFirst : (c d : Bool) → IsFirst (kind_of c d)
kind_of-IsFirst true d = check
kind_of-IsFirst false true = main
kind_of-IsFirst false false = quiescence

module _ (node : Node) (p : MovePicker) (f : Move → Bool) (no_skip : p.skip_quiets ≡ false) where
  abbrev but : Move → Bool
  but = but_tt node p.tt_move f

  abbrev opened_moves : Stage → List Move
  opened_moves stage =
      moves (pending_at stage node (opened node p) (first_order node p.first_stage))

  count_opened :
      (c d : Bool)
      → p.first_stage ≡ kind_of c d
      → count_by f (opened_moves p.first_stage)
        ≡ count_by but (
            if c
            then node.generate evasions
            else if d
            then node.generate captures ++ node.generate quiets
            else node.generate captures)
  unfolding pending_at
  count_opened true d at =
      ap (λ s. count_by f (opened_moves s)) at
      ∙ count_opened_reading node p f
      ∙ ap (λ s. count_by but (node.generate (first_kind s))) at
  count_opened false true at =
      ap (λ s. count_by f (opened_moves s)) at
      ∙ count_opened_captures node p f at no_skip
      ∙ ap (λ s. count_by but (node.generate (first_kind s)) + count_by but (node.generate quiets))
          at
      ∙ sym (count_by-append but (node.generate captures) (node.generate quiets))
  count_opened false false at =
      ap (λ s. count_by f (opened_moves s)) at
      ∙ count_opened_reading node p f
      ∙ ap (λ s. count_by but (node.generate (first_kind s))) at

  count_start :
      (usable : Bool)
      → count_by f (pending_from (if usable then tt_stage else init) node p [])
        ≡ (if usable then unit_if (f p.tt_move) else 0) + count_by f (opened_moves p.first_stage)
  unfolding pending_from count_by
  count_start true = refl
  count_start false = omega arith

module _ (node : Node) (tt_move : Move) (depth : ℤ) where
  abbrev is_usable : Bool
  is_usable = is_ok tt_move && node.legal tt_move

  abbrev own_tt : Move
  own_tt = if is_usable then tt_move else no_move

  count_new :
      (f : Move → Bool)
      → count_by f (pending node (new node tt_move depth) [])
        ≡ (if is_usable then unit_if (f own_tt) else 0)
          + count_by (but_tt node own_tt f) (generated node depth)
  unfolding new pending generated
  count_new f =
      let p = new node tt_move depth in
      count_start node p f refl is_usable
      ∙ ap (λ n. (if is_usable then unit_if (f own_tt) else 0) + n)
          (count_opened node p f refl node.in_check (ltb_ℤ (pos 0) depth) refl)

  first_ready :
      (usable : Bool) (p : MovePicker)
      → IsFirst p.first_stage
      → ReadyAt (if usable then tt_stage else init) node p []
  unfolding ReadyAt
  first_ready true p first = first
  first_ready false p first = first

  pub new-IsReady : IsReady node (new node tt_move depth) []
  unfolding new
  new-IsReady =
      first_ready is_usable (new node tt_move depth)
        (kind_of-IsFirst node.in_check (ltb_ℤ (pos 0) depth))

-- Without a move that is counted apart, or with one that is not there, the count is the same.
count_but :
    (node : Node) (tt_move m : Move) (ms : List Move)
    → (m == tt_move) ≡ false
    → count_by (but_tt node tt_move (λ x. x == m)) ms ≡ count m ms
unfolding count_by
count_but node tt_move m [] other = refl
count_but node tt_move m (x ∷ ms) other = ground (arith, count_but node tt_move m ms other)

count_tt :
    (node : Node) (tt_move m : Move) (ms : List Move)
    → (m == tt_move) ≡ true
    → count_by (but_tt node tt_move (λ x. x == m)) ms ≡ 0
unfolding count_by
count_tt node tt_move m [] same = refl
count_tt node tt_move m (x ∷ ms) same = ground (arith, count_tt node tt_move m ms same)

length-count_by : (ms : List Move) → count_by (λ m. true) ms ≡ length ms
unfolding count_by
length-count_by [] = refl
length-count_by (m ∷ ms) = omega (arith, length-count_by ms)

at_most_one : (b : Bool) → (if b then 1 else 0) ≤ 1
at_most_one b = ground arith

module _ (node : Node) (tt_move : Move) (depth : ℤ) where
  -- What the transposition move stands for: nothing, or one of the generated moves.
  abbrev pub FitsNode : Type 0
  FitsNode =
      ((is_ok tt_move && node.legal tt_move) ≡ false)
      ⊎ (((is_ok tt_move && node.legal tt_move) ≡ true)
          × (count tt_move (generated node depth) ≡ 1))

  abbrev is_it : Move → Move → Bool
  is_it m x = x == m

  count_unusable :
      (m : Move)
      → count no_move (generated node depth) ≡ 0
      → count_by (but_tt node no_move (is_it m)) (generated node depth)
        ≡ count m (generated node depth)
  count_unusable m real = elim (Bool-cases (m == no_move)) [
    | inr other ↦ count_but node no_move m (generated node depth) other
    | inl none_left ↦
        let same : no_move ≡ m = ground (arith, none_left) in
        count_tt node no_move m (generated node depth) none_left
        ∙ sym (sym (ap (λ x. count x (generated node depth)) same) ∙ real)
  ]

  count_usable :
      (m : Move)
      → count tt_move (generated node depth) ≡ 1
      → unit_if (tt_move == m) + count_by (but_tt node tt_move (is_it m)) (generated node depth)
        ≡ count m (generated node depth)
  count_usable m once = elim (Bool-cases (m == tt_move)) [
    | inr other ↦
        let apart : (tt_move == m) ≡ false = ground (arith, other) in
        rw apart (omega (arith, count_but node tt_move m (generated node depth) other))
    | inl same ↦
        let at : tt_move ≡ m = ground (arith, same) in
        let its : (tt_move == m) ≡ true = ground (arith, at) in
        let none_else = count_tt node tt_move m (generated node depth) same in
        let same_count = ap (λ x. count x (generated node depth)) at in
        rw its (omega (arith, none_else, same_count, once))
  ]

  pending-new :
      (m : Move)
      → count no_move (generated node depth) ≡ 0
      → FitsNode
      → count m (pending node (new node tt_move depth) []) ≡ count m (generated node depth)
  pending-new m real (inl unusable) =
      let before = λ (u : Bool).
        (if u then unit_if (is_it m (if u then tt_move else no_move)) else 0)
        + count_by (but_tt node (if u then tt_move else no_move) (is_it m))
            (generated node depth) in
      count_new node tt_move depth (is_it m)
      ∙ ap before unusable
      ∙ omega (arith, count_unusable m real)
  pending-new m real (inr (usable, once)) =
      let before = λ (u : Bool).
        (if u then unit_if (is_it m (if u then tt_move else no_move)) else 0)
        + count_by (but_tt node (if u then tt_move else no_move) (is_it m))
            (generated node depth) in
      count_new node tt_move depth (is_it m) ∙ ap before usable ∙ count_usable m once

  length-pending :
      length (pending node (new node tt_move depth) []) ≤ length (generated node depth) + 1
  length-pending =
      let all = λ (x : Move). true in
      let p = new node tt_move depth in
      omega (
        arith,
        length-count_by (pending node p []),
        count_new node tt_move depth all,
        count_by-le_length (but_tt node (own_tt node tt_move depth) all) (generated node depth),
        at_most_one (is_ok tt_move && node.legal tt_move),
      )

  pending_first :
      (is_ok tt_move && node.legal tt_move) ≡ true
      → (next_of (pending node (new node tt_move depth) [])).0 ≡ tt_move
  unfolding new pending pending_from
  pending_first usable = rw usable refl

  -- A picker for a main-search or quiescence node, where the buffer has room for the generated moves,
  -- none of these stands for no move, and the transposition move is unusable or one of them, yields
  -- the generated moves, each as often as it was generated, and then no move; a usable transposition
  -- move comes first.
  pub drain-new :
      HasRoom node
      → count no_move (generated node depth) ≡ 0
      → FitsNode
      → (yielded : List Move) × (drain
            (length (generated node depth) + 2)
            node
            (new node tt_move depth)
            []
          ≡ some yielded)
        × SameMoves yielded (generated node depth)
        × ((if is_ok tt_move && node.legal tt_move then (next_of yielded).0 else tt_move) ≡ tt_move)
  drain-new room real fits =
      let p = new node tt_move depth in
      (
        pending node p [],
        drain-pending node room (length (generated node depth) + 2) p []
            (new-IsReady node tt_move depth) (pending-new no_move real fits ∙ real)
            (omega (arith, length-pending)),
        λ m. pending-new m real fits,
        elim (Bool-cases (is_ok tt_move && node.legal tt_move)) [
          | inl usable ↦
              ap (λ b. if b then (next_of (pending node p [])).0 else tt_move) usable
              ∙ pending_first usable
          | inr unusable ↦ ap (λ b. if b then (next_of (pending node p [])).0 else tt_move) unusable
        ],
      )
