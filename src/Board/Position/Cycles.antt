-- ===== src/Board/Position/Cycles.antt =====
-- crates/rfish-engine/src/board/position.rs: `upcoming_repetition`. The cuckoo lookup is an argument.
use rfish.Prelude.{ℕ, ◌+◌, Bool, true, false, not, ◌&&◌, ◌||◌, ◌==◌, ltb, leb, min, if◌then◌else◌}
use rfish.Prelude.{Option, none, some, List, [], ◌∷◌, length, bit_and, bit_xor}
use rfish.Prelude.Int.{abs_ℕ}
use rfish.Board.Move.{Move, from_square, to_square}
use rfish.Board.Value.{Ply}
use rfish.Board.Bitboard.{is_empty, from_square as square_bb}
use rfish.Board.Attacks.{Sliders}
use rfish.Board.Zobrist.{Key, Tables}
use rfish.Board.Placement.{occupied}
use rfish.Board.Position.{Position, StateInfo}

module _ (sl : Sliders) (keys : Tables) (lookup : Key → Option Move) (p : Position)
    (ply : Ply) where
  -- A move that is not obstructed on the way, its destination apart.
  unobstructed : Move → Bool
  unobstructed m = is_empty (
      bit_and (bit_xor (sl.between_bb (from_square m) (to_square m)) (square_bb (to_square m)))
        (occupied p.placement))

  -- The state `then_` is `i` plies back, and no key but a single move's stands between.
  bridges : ℕ → StateInfo → Bool
  unfolding unobstructed from_square to_square square_bb
  bridges i then_ = elim (lookup (bit_xor p.st.key then_.key)) [
    | none ↦ false
    | some m ↦ unobstructed m && (ltb i ply || not (abs_ℕ then_.repetition == 0))
  ]

  -- The loop, from the states behind the one that the last round ended at.
  unfoldable pub cycle_loop : ℕ → ℕ → Key → List StateInfo → Bool
  unfolding bridges
  cycle_loop i end other (x ∷ y ∷ z ∷ older) =
      let next = bit_xor other (bit_xor (bit_xor y.key z.key) keys.side) in
      let rest = cycle_loop (i + 2) end next (z ∷ older) in
      if leb i end then if next == 0 && bridges i z then true else rest else false
  cycle_loop i end other (x ∷ y ∷ []) = false
  cycle_loop i end other (x ∷ []) = false
  cycle_loop i end other [] = false

  unfoldable pub upcoming_repetition : Bool
  unfolding cycle_loop
  upcoming_repetition =
      let end = min p.st.rule50 p.st.plies_from_null in
      if ltb end 3 || ltb (length p.prev) 3 then false else elim p.prev [
        | [] ↦ false
        | x ∷ older ↦ cycle_loop 3 end (bit_xor (bit_xor p.st.key x.key) keys.side) (x ∷ older)
      ]
