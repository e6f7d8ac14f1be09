-- ===== src/Board/Position/Transition/RoundTrip.antt =====
-- A move that is made and undone gives the whole position back, archive and derived state included.
use rfish.Prelude.{◌+◌, ◌-◌, ◌≡◌, arith, refl, ap, ◌∙◌}
use rfish.Prelude.{Bool, true, false, some, >>=-some, ◌∷◌, inl, inr}
use rfish.Board.Piece.{Color, PieceType, white, black, opponent}
use rfish.Board.Square.{Square}
use rfish.Board.Move.{Move, MoveType, move_type, from_square, to_square, promotion_type}
use rfish.Board.Bitboard.{Bitboard}
use rfish.Board.Attacks.{Sliders}
use rfish.Board.Zobrist.{Tables}
use rfish.Board.Placement.{Placement, king_square}
use rfish.Board.Position.{StateInfo, Position, is_type}
use rfish.Board.Position.State.{next_state}
use rfish.Board.Position.State.Slots.{Few}
use rfish.Board.Position.State.Total.{next_step-some}
use rfish.Board.Position.Checks.{set_check_info}
use rfish.Board.Position.Checks.Total.{HasKings, set_check_info-some}
use rfish.Board.Position.Moves.{placed, unplaced, captured}
use rfish.Board.Position.Moves.RoundTrip.{IsMove, unplaced-placed}
use rfish.Board.Position.Transition.{
  child_state, checkers_after, do_move_checked, undo_move, do_null_move, undo_null_move,
  set_repetition,
}

opponent_twice : (c : Color) → opponent (opponent c) ≡ c
opponent_twice white = refl
opponent_twice black = refl

castle_state-some :
    (keys : Tables) (sl : Sliders) (mt : MoveType) (us : Color) (from to : Square)
    (promo : PieceType) (p : Placement) (st : StateInfo)
    → is_type mt MoveType.castling ≡ true
    → (st' : StateInfo) × (next_state keys sl mt us from to promo p st ≡ some st')
unfolding next_state
castle_state-some keys sl mt us from to promo p st castles = rw castles (_, refl)

checkers_after-some :
    (sl : Sliders) (gives_check : Bool) (us : Color) (q : Placement)
    → HasKings q
    → (b : Bitboard) × (checkers_after sl gives_check us q ≡ some b)
unfolding checkers_after
checkers_after-some sl false us q kings = (_, refl)
checkers_after-some sl true us q kings =
    (_, >>=-some (king_square q (opponent us)) _ (kings (opponent us)).1)

module _ (keys : Tables) (sl : Sliders) (p : Position) where
  -- The position after a move whose child state is `st`.
  abbrev pub made : Move → StateInfo → Position
  made m st = record p {
    placement = placed p.side_to_move m p.placement;
    st =
        set_repetition (p.st ∷ p.prev)
          (record st { captured_piece = captured p.side_to_move m p.placement });
    prev = p.st ∷ p.prev;
    game_ply = p.game_ply + 1;
    side_to_move = opponent p.side_to_move;
  }

  pub do_move-made :
      (m : Move) (gives_check : Bool) (st : StateInfo)
      → child_state keys sl m gives_check p ≡ some st
      → do_move_checked keys sl m gives_check p ≡ some (made m st)
  unfolding do_move_checked
  do_move-made m gives_check st made_it = rw made_it refl

  undo_move-made :
      (m : Move) (st : StateInfo)
      → IsMove p.placement p.side_to_move m
      → undo_move m (made m st) ≡ some p
  unfolding undo_move set_repetition
  undo_move-made m st legal =
      let us = p.side_to_move in
      let taken = captured us m p.placement in
      let after = placed us m p.placement in
      let back : unplaced (opponent (opponent us)) m taken after ≡ p.placement =
        ap (λ c. unplaced c m taken after) (opponent_twice us)
        ∙ (unplaced-placed p.placement us m legal).1 in
      let ply : p.game_ply + 1 - 1 ≡ p.game_ply = omega arith in
      (λ i.
        some
          (record p { placement = back i; game_ply = ply i; side_to_move = opponent_twice us i }))

  -- With both kings on the board a null move is made, and undone it gives the whole position back.
  pub undo_null_move-do_null_move :
      HasKings p.placement
      → (q : Position) × (do_null_move keys sl p ≡ some q) × (undo_null_move q ≡ some p)
  unfolding do_null_move undo_null_move
  undo_null_move-do_null_move kings =
      let (st, found) = set_check_info-some sl p.placement kings (opponent p.side_to_move) _ in
      (
        _,
        >>=-some (set_check_info sl p.placement (opponent p.side_to_move) _) _ found,
        (λ i. some (record p { side_to_move = opponent_twice p.side_to_move i })),
      )

  next_state-some :
      (m : Move) (st : StateInfo)
      → IsMove p.placement p.side_to_move m
      → Few 32 p.placement
      → HasKings (placed p.side_to_move m p.placement)
      → (st' : StateInfo) × (next_state keys sl
            (move_type m)
            p.side_to_move
            (from_square m)
            (to_square m)
            (promotion_type m)
            p.placement
            st
          ≡ some st')
  unfolding placed
  next_state-some m st (inl (castles, can)) few kings =
      castle_state-some keys sl (move_type m) p.side_to_move (from_square m) (to_square m)
        (promotion_type m) p.placement st castles
  next_state-some m st (inr (plain, step)) few kings =
      next_step-some keys sl p.placement (move_type m) p.side_to_move (from_square m) (to_square m)
        (promotion_type m) step few plain kings st

  pub child_state-some :
      (m : Move) (gives_check : Bool)
      → IsMove p.placement p.side_to_move m
      → Few 32 p.placement
      → HasKings (placed p.side_to_move m p.placement)
      → (st : StateInfo) × (child_state keys sl m gives_check p ≡ some st)
  unfolding child_state
  child_state-some m gives_check legal few kings =
      let us = p.side_to_move in
      let after = placed us m p.placement in
      let (moved, advanced) = next_state-some m _ legal few kings in
      let (checkers, seen) = checkers_after-some sl gives_check us after kings in
      let (st, found) =
        set_check_info-some sl after kings (opponent us) (record moved { checkers = checkers }) in
      (st, >>=-some _ _ advanced ∙ >>=-some (checkers_after sl gives_check us after) _ seen ∙ found)

  -- A move that fits the placement, made with no piece more than 32 times on the board and both kings
  -- there after it, returns a position, whatever the check flag, and undoing the move in that position
  -- returns the whole position before it.
  pub undo_move-do_move :
      (m : Move) (gives_check : Bool)
      → IsMove p.placement p.side_to_move m
      → Few 32 p.placement
      → HasKings (placed p.side_to_move m p.placement)
      → (q : Position) × (do_move_checked keys sl m gives_check p ≡ some q)
        × (undo_move m q ≡ some p)
  undo_move-do_move m gives_check legal few kings =
      let (st, found) = child_state-some m gives_check legal few kings in
      (made m st, do_move-made m gives_check st found, undo_move-made m st legal)
