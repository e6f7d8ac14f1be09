-- ===== src/Search/MovePicker/Pending.antt =====
-- What a move picker has still to yield, as one list: the abstract view of its stages, cursors and
-- buffer; and the states that the stages keep to.
use rfish.Prelude.{
  ℕ, ◌+◌, ◌-◌, ◌≤◌, ◌<◌, ◌≡◌, Option, some, ◌⊎◌, ◌==◌, Bool, true, false, not, ◌&&◌, if◌then◌else◌,
}
use rfish.Prelude.{List, [], ◌∷◌, ◌++◌, length, entries, All}
use rfish.Prelude.Int.{ℤ, pos}
use rfish.Board.Move.{Move, no_move}
use rfish.Board.MoveGen.{captures, quiets, evasions}
use rfish.Search.MoveSort.{ScoredMove, full_insertion_sort, partial_insertion_sort}
use rfish.Search.MovePicker.{
  Node, MoveBuf, MovePicker, max_moves, Stage, tt_stage, init, good_capture, good_quiet, bad_moves,
  q_search, evasion, prob_cut, finished, rescore, quiet_sort_limit, sorted_past, holds,
  is_good_quiet, first_kind, Pass, returns, goes_on,
}

unfoldable pub pick : (ScoredMove → Bool) → MoveBuf → MoveBuf
pick test [] = []
pick test (sm ∷ l) = let rest = pick test l in if test sm then sm ∷ rest else rest

unfoldable pub moves : MoveBuf → List Move
moves [] = []
moves (sm ∷ l) = sm.mv ∷ moves l

unfoldable pub unscored : List Move → MoveBuf
unscored [] = []
unscored (m ∷ ms) = record { mv = m; score = pos 0 } ∷ unscored ms

abbrev pub is_fresh : Move → ScoredMove → Bool
is_fresh tt_move sm = not (sm.mv == tt_move)

abbrev pub taken : Move → (ScoredMove → Bool) → ScoredMove → Bool
taken tt_move accepts sm = is_fresh tt_move sm && accepts sm

abbrev pub left : Move → (ScoredMove → Bool) → ScoredMove → Bool
left tt_move accepts sm = is_fresh tt_move sm && not (accepts sm)

-- The good quiets, what was deferred before, the other quiets.
unfoldable pub with_quiets : Move → MoveBuf → MoveBuf → MoveBuf
unfolding pick
with_quiets tt_move bad l =
    pick (taken tt_move is_good_quiet) l ++ (bad ++ pick (left tt_move is_good_quiet) l)

unfoldable pub quiet_order : Node → ℤ → MoveBuf
unfolding unscored rescore quiet_sort_limit
quiet_order node depth =
    partial_insertion_sort (rescore (node.score quiets) (unscored (node.generate quiets)))
      (quiet_sort_limit depth)

unfoldable pub behind_captures : Node → MovePicker → MoveBuf → MoveBuf
unfolding with_quiets quiet_order
behind_captures node p bad =
    if p.skip_quiets then bad else with_quiets p.tt_move bad (quiet_order node p.depth)

unfoldable pub with_captures : Node → MovePicker → MoveBuf → MoveBuf → MoveBuf
unfolding behind_captures pick
with_captures node p bad l =
    pick (taken p.tt_move (holds node)) l
    ++ behind_captures node p (bad ++ pick (left p.tt_move (holds node)) l)

abbrev pub unread : MovePicker → MoveBuf → MoveBuf
unread p buf = entries buf p.cur (p.end_cur - p.cur)

abbrev pub deferred : MovePicker → MoveBuf → MoveBuf
deferred p buf = pick (is_fresh p.tt_move) (entries buf 0 p.end_bad_moves)

-- In the stages behind the first two.
unfoldable pub pending_at : Stage → Node → MovePicker → MoveBuf → MoveBuf
unfolding with_captures with_quiets pick entries
pending_at good_capture node p buf = with_captures node p (deferred p buf) (unread p buf)
pending_at good_quiet node p buf = with_quiets p.tt_move (deferred p buf) (unread p buf)
pending_at bad_moves node p buf = pick (taken p.tt_move (λ sm. true)) (unread p buf)
pending_at q_search node p buf = pick (taken p.tt_move (λ sm. true)) (unread p buf)
pending_at evasion node p buf = pick (taken p.tt_move (λ sm. true)) (unread p buf)
pending_at prob_cut node p buf =
    pick (taken p.tt_move (λ sm. node.see_ge sm.mv p.threshold)) (unread p buf)
pending_at _ node p buf = []

unfoldable pub first_order : Node → Stage → MoveBuf
unfolding unscored rescore
first_order node stage =
    full_insertion_sort
      (rescore (node.score (first_kind stage)) (unscored (node.generate (first_kind stage))))

-- A picker that enters its first stage.
abbrev pub opened : Node → MovePicker → MovePicker
opened node p = record p {
  cur = 0;
  end_bad_moves = 0;
  end_cur = length (unscored (node.generate (first_kind p.first_stage)));
  stage = p.first_stage;
}

unfoldable pub pending_from : Stage → Node → MovePicker → MoveBuf → List Move
unfolding pending_at first_order moves unscored
pending_from tt_stage node p buf =
    p.tt_move
    ∷ moves (pending_at p.first_stage node (opened node p) (first_order node p.first_stage))
pending_from init node p buf =
    moves (pending_at p.first_stage node (opened node p) (first_order node p.first_stage))
pending_from stage node p buf = moves (pending_at stage node p buf)

unfoldable pub pending : Node → MovePicker → MoveBuf → List Move
unfolding pending_from
pending node p buf = pending_from p.stage node p buf

-- The generated moves have room in the buffer.
pub record HasRoom (node : Node) : Type 0 where
  pub main : length (node.generate captures) + length (node.generate quiets) ≤ max_moves
  pub check : length (node.generate evasions) ≤ max_moves

-- Behind a quiet that is not good there is none that is.
unfoldable pub IsCut : MoveBuf → Type 0
IsCut [] = Unit
IsCut (sm ∷ l) =
    ((is_good_quiet sm ≡ true) ⊎ All (λ (x : ScoredMove). is_good_quiet x ≡ false) l) × IsCut l

pub data IsFirst : Stage → Type 0 where
  main : IsFirst good_capture
  quiescence : IsFirst q_search
  check : IsFirst evasion
  exchange : IsFirst prob_cut

pub record InCaptures (node : Node) (p : MovePicker) (buf : MoveBuf) : Type 0 where
  pub behind : p.end_bad_moves ≤ p.cur
  pub ahead : p.cur ≤ p.end_cur
  pub whole : p.end_cur ≡ length buf
  pub room : length buf + length (node.generate quiets) ≤ max_moves

pub record InQuiets (p : MovePicker) (buf : MoveBuf) : Type 0 where
  pub kept : p.end_bad_captures ≤ p.end_bad_moves
  pub passed : p.end_bad_captures ≤ p.cur
  pub inside : p.end_bad_moves ≤ length buf
  pub running :
      (p.end_cur ≤ p.cur)
      ⊎ ((p.end_bad_moves ≤ p.cur)
          × (p.end_cur ≡ length buf)
          × ((sorted_past p.depth ≡ false)
              ⊎ ((p.end_bad_moves ≡ p.end_bad_captures) × IsCut (unread p buf))))

unfoldable pub ReadyAt : Stage → Node → MovePicker → MoveBuf → Type 0
ReadyAt tt_stage node p buf = IsFirst p.first_stage
ReadyAt init node p buf = IsFirst p.first_stage
ReadyAt good_capture node p buf = InCaptures node p buf
ReadyAt good_quiet node p buf = InQuiets p buf
ReadyAt bad_moves node p buf =
    (p.cur ≤ length buf) × (p.end_cur ≤ length buf) × (p.end_bad_captures ≤ length buf)
ReadyAt finished node p buf = Unit
ReadyAt _ node p buf = (p.cur ≤ length buf) × (p.end_cur ≤ length buf)

-- What holds of a picker and its buffer between two calls.
abbrev pub IsReady : Node → MovePicker → MoveBuf → Type 0
IsReady node p buf = ReadyAt p.stage node p buf

-- The most passes through the picker's loop that a call from a stage takes.
abbrev pub rank : Stage → ℕ
rank tt_stage = 6
rank init = 5
rank good_capture = 4
rank good_quiet = 3
rank bad_moves = 2
rank q_search = 2
rank evasion = 2
rank prob_cut = 2
rank finished = 1

-- A queue's front and the queue behind it; an empty queue gives no move.
abbrev pub next_of : List Move → Move × List Move
next_of [] = (no_move, [])
next_of (m ∷ ms) = (m, ms)

-- A pass that returns takes the front of what is pending; one that goes on keeps all of it.
abbrev pub Refines : Node → MovePicker → MoveBuf → Pass → Type 0
Refines node p buf (returns m p' buf') =
    IsReady node p' buf' × (next_of (pending node p buf) ≡ (m, pending node p' buf'))
Refines node p buf (goes_on p' buf') =
    IsReady node p' buf'
    × (pending node p' buf' ≡ pending node p buf)
    × (rank p'.stage < rank p.stage)

abbrev pub PassRefines : Node → MovePicker → MoveBuf → Option Pass → Type 0
PassRefines node p buf run = (pass : Pass) × (run ≡ some pass) × Refines node p buf pass
