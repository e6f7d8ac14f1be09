-- ===== src/Board/Position/Transition.antt =====
-- crates/rfish-engine/src/board/position.rs: making and unmaking moves and null moves. A panic is `none`;
-- what the move does to the threat lists is left out.
pub mod RoundTrip
pub mod BoardKeys
pub mod Keys
pub mod Repetition
use rfish.Prelude.{
  ℕ, zero, suc, ◌+◌, ◌-◌, ◌==◌, leb, min, not, Bool, if◌then◌else◌, bit_and, bit_xor,
}
use rfish.Prelude.{Option, none, some, List, [], ◌∷◌, get_elem?, ◌>>=◌}
use rfish.Prelude.Int.{ℤ, pos, abs_ℕ, neg}
use rfish.Board.Piece.{Color, opponent, no_piece}
use rfish.Board.Move.{Move, move_type, from_square, to_square, promotion_type}
use rfish.Board.Bitboard.{Bitboard, empty}
use rfish.Board.Attacks.{Sliders}
use rfish.Board.Zobrist.{Tables, Key}
use rfish.Board.Placement.{Placement, colored, king_square}
use rfish.Board.Position.{StateInfo, Position}
use rfish.Board.Position.Checks.{attackers_to, set_check_info}
use rfish.Board.Position.Moves.{placed, unplaced, captured}
use rfish.Board.Position.State.{carry, clear_ep, drop_rights, next_state}

-- The backward walk, two plies at a time. The state `i` plies back is entry `i - 1` of the archive; each
-- round brings `i` nearer to the end, so `stop` rounds are enough.
unfoldable pub repetition_walk : ℕ → ℕ → ℕ → Key → List StateInfo → ℤ
unfolding neg
repetition_walk zero i stop key prev = pos 0
repetition_walk (suc fuel) i stop key prev =
    let further = repetition_walk fuel (i + 2) stop key prev in
    if leb i stop
    then elim (get_elem? prev (i - 1)) [
      | none ↦ pos 0
      | some s ↦
          if s.key == key then (if abs_ℕ s.repetition == 0 then pos i else neg (pos i)) else further
    ]
    else pos 0

unfoldable pub set_repetition : List StateInfo → StateInfo → StateInfo
unfolding repetition_walk
set_repetition prev st =
    let stop = min st.rule50 st.plies_from_null in
    record st { repetition = repetition_walk stop 4 stop st.key prev }

-- The checkers that the caller's flag asks for; `us` has just moved.
unfoldable pub checkers_after : Sliders → Bool → Color → Placement → Option Bitboard
unfolding attackers_to king_square
checkers_after sl gives_check us p =
    if gives_check
    then (do
      ksq ← king_square p (opponent us)
      some (bit_and (attackers_to sl p ksq) (colored p us)))
    else some empty

module _ (keys : Tables) (sl : Sliders) where
  -- The state after the move, but for the captured piece and the repetition.
  unfoldable pub child_state : Move → Bool → Position → Option StateInfo
  unfolding carry clear_ep drop_rights next_state placed checkers_after set_check_info move_type
      from_square to_square promotion_type
  child_state m gives_check p = do
    let us = p.side_to_move
    let from = from_square m
    let to = to_square m
    let carried =
        drop_rights keys (p.castling_rights_mask from) (p.castling_rights_mask to)
          (clear_ep keys (carry keys p.st))
    moved ← next_state keys sl (move_type m) us from to (promotion_type m) p.placement carried
    checkers ← checkers_after sl gives_check us (placed us m p.placement)
    set_check_info sl (placed us m p.placement) (opponent us) (record moved { checkers = checkers })

  unfoldable pub do_move_checked : Move → Bool → Position → Option Position
  unfolding child_state placed captured set_repetition
  do_move_checked m gives_check p = do
    st ← child_state m gives_check p
    let us = p.side_to_move
    let prev = p.st ∷ p.prev
    some (record p {
      placement = placed us m p.placement;
      st = set_repetition prev (record st { captured_piece = captured us m p.placement });
      prev = prev;
      game_ply = p.game_ply + 1;
      side_to_move = opponent us;
    })

  unfoldable pub do_null_move : Position → Option Position
  unfolding clear_ep set_check_info
  do_null_move p = do
    let them = opponent p.side_to_move
    let cleared = clear_ep keys (record p.st { key = bit_xor p.st.key keys.side })
    st ←
        set_check_info sl p.placement them
          (record cleared { plies_from_null = 0; captured_piece = no_piece; checkers = empty })
    some (record p {
      st = record st { repetition = pos 0 };
      prev = p.st ∷ p.prev;
      side_to_move = them;
    })

-- An empty archive panics.
unfoldable pub undo_move : Move → Position → Option Position
unfolding unplaced
undo_move m p = elim p.prev [
  | [] ↦ none
  | parent ∷ older ↦
      let us = opponent p.side_to_move in
      some (record p {
        placement = unplaced us m p.st.captured_piece p.placement;
        st = parent;
        prev = older;
        game_ply = p.game_ply - 1;
        side_to_move = us;
      })
]

unfoldable pub undo_null_move : Position → Option Position
undo_null_move p = elim p.prev [
  | [] ↦ none
  | parent ∷ older ↦
      some (record p { st = parent; prev = older; side_to_move = opponent p.side_to_move })
]
