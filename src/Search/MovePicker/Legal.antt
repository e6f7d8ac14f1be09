-- ===== src/Search/MovePicker/Legal.antt =====
-- The picker over the move generator.
use rfish.Prelude.{
  ◌≤◌, ◌==◌, refl, arith, not, ◌&&◌, Bool-cases, ◌+◌, ◌≡◌, ◌∙◌, ◌⊎◌, ap, ap₂, sym, Bool, true,
  false, if◌then◌else◌, inl, inr,
}
use rfish.Prelude.{Option, some, ◌>>=◌, >>=-some, List, [], ◌∷◌, ◌++◌, length}
use rfish.Prelude.Int.{ℤ, pos, ltb_ℤ}
use rfish.Board.Move.{Move, MoveType, no_move, is_ok, move_type}
use rfish.Board.Legality.{contains_move, legal}
use rfish.Search.MoveSort.Tally.{unit_if}
use rfish.Search.MovePicker.Count.{count_by}
use rfish.Board.MoveGen.{captures, quiets, evasions}
use rfish.Board.MoveGen.Legal.{generate_into, generate_legal}
use rfish.Board.Attacks.{Sliders}
use rfish.Board.Position.{Position, in_check, is_type}
use rfish.Search.MovePicker.{Node, new}
use rfish.Search.MovePicker.Pending.{HasRoom, next_of}
use rfish.Search.MovePicker.Drain.{drain, count, SameMoves}
use rfish.Search.MovePicker.Complete.{FitsNode, generated, drain-new}

-- A node whose moves the generator gives: the evasions in check, else the captures and the quiets.
abbrev pub IsNode : Sliders → Position → Node → Type 0
IsNode sl p node =
    ((in_check p ≡ true)
      × (node.in_check ≡ true)
      × (generate_into sl p evasions ≡ some (node.generate evasions)))
    ⊎ ((in_check p ≡ false)
        × (node.in_check ≡ false)
        × (generate_into sl p captures ≡ some (node.generate captures))
        × (generate_into sl p quiets ≡ some (node.generate quiets)))

-- A list without repetitions has a move once or not at all.
count_single :
    (m : Move) (ms : List Move) → count m ms ≤ 1 → unit_if (contains_move ms m) ≡ count m ms
unfolding contains_move count_by
count_single m [] single = refl
count_single m (x ∷ ms) single = elim (Bool-cases (x == m)) [
  | inl same ↦ ground (arith, single, same)
  | inr other ↦ let rest = count_single m ms (ground (arith, single)) in ground (arith, other, rest)
]

some_same : {a b : Bool} → some a ≡ some b → a ≡ b
some_same h = cc

gate_open :
    (ok : Bool) (rest : Option Bool) → (if not ok then some false else rest) ≡ some true → ok ≡ true
gate_open true rest h = refl
gate_open false rest h = absurd (cc)

ok_of_legal : (sl : Sliders) (p : Position) (m : Move) → legal sl p m ≡ some true → is_ok m ≡ true
unfolding legal
ok_of_legal sl p m h = gate_open (is_ok m) _ h

second_way :
    (ok plain : Bool) (special rest : Option Bool)
    → ok ≡ true
    → plain ≡ false
    → (if not ok then some false else if not plain then special else rest) ≡ special
second_way true false special rest a b = refl
second_way false plain special rest a b = absurd (cc)
second_way true true special rest a b = absurd (cc)

module _ (sl : Sliders) (p : Position) (node : Node) (depth : ℤ)
    (deep : ltb_ℤ (pos 0) depth ≡ true) where
  abbrev main_moves : Option (List Move)
  main_moves =
      generate_into sl p captures >>= λ ms. generate_into sl p quiets >>= λ rest. some (ms ++ rest)

  listed_by :
      (c : Bool)
      → in_check p ≡ c
      → generate_legal sl p ≡ (if c then generate_into sl p evasions else main_moves)
  unfolding generate_legal
  listed_by c here = ap (λ b. if b then generate_into sl p evasions else main_moves) here

  generated_by :
      (c : Bool)
      → node.in_check ≡ c
      → generated node depth
        ≡ (if c then node.generate evasions else node.generate captures ++ node.generate quiets)
  unfolding generated
  generated_by c there =
      ap₂
        (λ a b.
          if a
          then node.generate evasions
          else if b
          then node.generate captures ++ node.generate quiets
          else node.generate captures)
        there deep

  generate_legal-generated : IsNode sl p node → generate_legal sl p ≡ some (generated node depth)
  generate_legal-generated (inl (here, there, evading)) =
      listed_by true here ∙ evading ∙ ap some (sym (generated_by true there))
  generate_legal-generated (inr (here, there, taking, quiet)) =
      listed_by false here
      ∙ >>=-some (generate_into sl p captures) _ taking
      ∙ >>=-some (generate_into sl p quiets) _ quiet
      ∙ ap some (sym (generated_by false there))

  -- What `legal` answers for a move that is not plain: whether the generator lists it.
  special_listed :
      (m : Move) (answer : Bool)
      → IsNode sl p node
      → is_ok m ≡ true
      → is_type (move_type m) MoveType.normal ≡ false
      → legal sl p m ≡ some answer
      → contains_move (generated node depth) m ≡ answer
  unfolding legal
  special_listed m answer is_node ok special answers =
      let looked_up = generate_legal sl p >>= λ ms. some (contains_move ms m) in
      let taken : legal sl p m ≡ looked_up =
        second_way (is_ok m) (is_type (move_type m) MoveType.normal) looked_up _ ok special in
      let found =
        >>=-some (generate_legal sl p) (λ ms. some (contains_move ms m))
          (generate_legal-generated is_node) in
      some_same (sym found ∙ sym taken ∙ answers)

  usable_fits :
      (m : Move)
      → IsNode sl p node
      → legal sl p m ≡ some (node.legal m)
      → ((x : Move) → count x (generated node depth) ≤ 1)
      → (is_type (move_type m) MoveType.normal ≡ true
          → node.legal m ≡ true
          → contains_move (generated node depth) m ≡ true)
      → FitsNode node m depth
  usable_fits m is_node answers single plain = elim (Bool-cases (is_ok m && node.legal m)) [
    | inr unusable ↦ inl unusable
    | inl usable ↦
        let ok : is_ok m ≡ true = ground (arith, usable) in
        let agreed : node.legal m ≡ true = ground (arith, usable) in
        let listed : contains_move (generated node depth) m ≡ true =
          elim (Bool-cases (is_type (move_type m) MoveType.normal)) [
            | inl is_plain ↦ plain is_plain agreed
            | inr special ↦ special_listed m true is_node ok special (answers ∙ ap some agreed)
          ] in
        inr (usable, sym (count_single m (generated node depth) (single m)) ∙ ap unit_if listed)
  ]

  -- Above depth zero, for a node that has its check, its generated moves and its answer on the
  -- transposition move from a position; whose captures and quiets together, and whose evasions, are at
  -- most the 256 moves of the buffer; of whose moves at this depth none is the one that stands for none
  -- and none is listed twice; and among which a plain transposition move is, if legal: the picker yields
  -- the moves of `generate_legal`, each once, and then none, and a legal transposition move first.
  pub drain-generate_legal :
      (tt_move : Move)
      → IsNode sl p node
      → legal sl p tt_move ≡ some (node.legal tt_move)
      → HasRoom node
      → count no_move (generated node depth) ≡ 0
      → ((m : Move) → count m (generated node depth) ≤ 1)
      → (is_type (move_type tt_move) MoveType.normal ≡ true
          → node.legal tt_move ≡ true
          → contains_move (generated node depth) tt_move ≡ true)
      → (yielded : List Move) × (listed : List Move) × (drain
            (length (generated node depth) + 2)
            node
            (new node tt_move depth)
            []
          ≡ some yielded)
        × (generate_legal sl p ≡ some listed)
        × SameMoves yielded listed
        × ((m : Move) → unit_if (contains_move listed m) ≡ count m yielded)
        × ((if node.legal tt_move then (next_of yielded).0 else tt_move) ≡ tt_move)
  drain-generate_legal tt_move is_node answers room real single plain =
      let (yielded, drained, same, first) =
        drain-new node tt_move depth room real (usable_fits tt_move is_node answers single plain) in
      (
        yielded,
        generated node depth,
        drained,
        generate_legal-generated is_node,
        same,
        λ m. count_single m (generated node depth) (single m) ∙ sym (same m),
        elim (Bool-cases (node.legal tt_move)) [
          | inr unusable ↦ rw unusable refl
          | inl agreed ↦
              let ok = ok_of_legal sl p tt_move (answers ∙ ap some agreed) in
              rw agreed (rw (ok, agreed) at first)
        ],
      )
