-- ===== src/Search/MovePicker.antt =====
-- crates/rfish-engine/src/search/movepick.rs: the staged move picker and its buffer. What it reads of
-- the position and of the histories at its node is the record `Node`; the keys of the history rows,
-- which only the scoring passes on, are part of that. A panic is `none`.
pub mod Pending
pub mod Steps
pub mod Deferring
pub mod Scores
pub mod Legal
pub mod EarlyStop
pub mod Skipping
pub mod Count
pub mod Refinement
pub mod Quieting
pub mod Cutting
pub mod Capturing
pub mod Opening
pub mod Reading
pub mod Sorted
pub mod Drain
pub mod Complete
use rfish.Prelude.{
  ℕ, zero, suc, ◌+◌, ◌-◌, ◌==◌, Bool, true, false, not, ◌&&◌, if◌then◌else◌, leb, ltb,
}
use rfish.Prelude.{
  Option, none, some, ◌>>=◌, List, [], ◌∷◌, ◌++◌, length, get_elem?, set, take, entries, write,
  on_tail,
}
use rfish.Prelude.Int.{ℤ, pos, negsuc, ◌*ℤ◌, neg, quot, leb_ℤ, ltb_ℤ}
use rfish.Board.Move.{Move, no_move, is_ok}
use rfish.Board.Value.{Value, value_zero}
use rfish.Board.MoveGen.{GenType, captures, quiets, evasions}
use rfish.Search.MoveSort.{ScoredMove, full_insertion_sort, partial_insertion_sort}

pub record Node : Type 0 where
  pub in_check : Bool
  pub legal : Move → Bool
  pub is_capture_stage : Move → Bool
  pub see_ge : Move → Value → Bool
  pub generate : GenType → List Move
  pub score : GenType → Move → ℤ

pub data Stage : Type 0 where
  tt_stage init good_capture good_quiet bad_moves q_search evasion prob_cut finished : Stage

-- The moves of the buffer up to its length; there is room for `max_moves`.
abbrev pub MoveBuf : Type 0
MoveBuf = List ScoredMove

abbrev pub max_moves : ℕ
max_moves = 256

pub record MovePicker : Type 0 where
  pub tt_move : Move
  pub threshold : Value
  pub stage : Stage
  pub first_stage : Stage
  pub depth : ℤ
  pub skip_quiets : Bool
  pub cur : ℕ
  pub end_cur : ℕ
  pub end_bad_captures : ℕ
  pub end_bad_moves : ℕ

abbrev pub good_quiet_threshold : ℤ
good_quiet_threshold = negsuc 13999

abbrev saturate : ℤ → ℤ
saturate v =
    if ltb_ℤ (pos 2147483647) v
    then pos 2147483647
    else if ltb_ℤ v (negsuc 2147483647)
    then negsuc 2147483647
    else v

unfoldable pub quiet_sort_limit : ℤ → ℤ
unfolding neg ◌*ℤ◌
quiet_sort_limit depth = neg (saturate (pos 3560 *ℤ depth))

unfoldable pub sorted_past : ℤ → Bool
sorted_past depth = leb_ℤ (pos 4) depth

-- `push_move` for each of some moves, past whose capacity it panics. A slot's score is assigned by the
-- scoring pass that follows, and is zero until then.
unfoldable pub push_all : List Move → MoveBuf → Option MoveBuf
push_all [] buf = some buf
push_all (m ∷ ms) buf =
    if ltb (length buf) max_moves
    then push_all ms (buf ++ record { mv = m; score = pos 0 } ∷ [])
    else none

unfoldable pub rescore : (Move → ℤ) → MoveBuf → MoveBuf
rescore score [] = []
rescore score (sm ∷ buf) = record { mv = sm.mv; score = score sm.mv } ∷ rescore score buf

unfoldable pub new : Node → Move → ℤ → MovePicker
unfolding is_ok
new node tt_move depth =
    let usable = is_ok tt_move && node.legal tt_move in
    record {
      tt_move = if usable then tt_move else no_move;
      threshold = value_zero;
      stage = if usable then tt_stage else init;
      first_stage =
          if node.in_check then evasion else if ltb_ℤ (pos 0) depth then good_capture else q_search;
      depth = depth;
      skip_quiets = false;
      cur = 0;
      end_cur = 0;
      end_bad_captures = 0;
      end_bad_moves = 0;
    }

unfoldable pub new_probcut : Node → Move → Value → MovePicker
unfolding is_ok
new_probcut node tt_move threshold =
    let usable = is_ok tt_move && node.is_capture_stage tt_move && node.legal tt_move in
    record {
      tt_move = if usable then tt_move else no_move;
      threshold = threshold;
      stage = if usable then tt_stage else init;
      first_stage = prob_cut;
      depth = pos 0;
      skip_quiets = false;
      cur = 0;
      end_cur = 0;
      end_bad_captures = 0;
      end_bad_moves = 0;
    }

cut_quiets : Stage → MovePicker → MovePicker
cut_quiets bad_moves p = record p {
  end_cur = p.end_bad_captures;
  end_bad_moves = p.end_bad_captures;
}
cut_quiets good_quiet p = record p {
  end_cur = p.end_bad_captures;
  end_bad_moves = p.end_bad_captures;
}
cut_quiets _ p = p

unfoldable pub skip_quiet_moves : MovePicker → MovePicker
unfolding cut_quiets
skip_quiet_moves p = cut_quiets p.stage (record p { skip_quiets = true })

-- `select` over the `n` moves up to `end_cur`.
unfoldable pub select_loop :
    (ScoredMove → Bool) → ℕ → MovePicker → MoveBuf → Option (Option Move × MovePicker)
select_loop accepts zero p buf = some (none, p)
select_loop accepts (suc n) p buf = do
  sm ← get_elem? buf p.cur
  let next = record p { cur = p.cur + 1 }
  let rest = select_loop accepts n next buf
  if not (sm.mv == p.tt_move) && accepts sm then some (some sm.mv, next) else rest

unfoldable pub select :
    (ScoredMove → Bool) → MovePicker → MoveBuf → Option (Option Move × MovePicker)
unfolding select_loop
select accepts p buf = select_loop accepts (p.end_cur - p.cur) p buf

-- `buf[end_bad_moves] = sm; end_bad_moves += 1`, which panics past the buffer's length.
unfoldable pub defer : ScoredMove → MovePicker → MoveBuf → Option (MovePicker × MoveBuf)
defer sm p buf =
    if ltb p.end_bad_moves (length buf)
    then some (record p { end_bad_moves = p.end_bad_moves + 1 }, set buf p.end_bad_moves sm)
    else none

-- A loop that returns the moves a test accepts and defers the others, but for the transposition move:
-- that of `Stage::GoodCapture` and that of `select_good_quiet_walk`.
unfoldable pub deferring_loop :
    (ScoredMove → Bool) → ℕ → MovePicker → MoveBuf → Option (Option Move × MovePicker × MoveBuf)
unfolding defer
deferring_loop accepts zero p buf = some (none, p, buf)
deferring_loop accepts (suc n) p buf = do
  sm ← get_elem? buf p.cur
  let next = record p { cur = p.cur + 1 }
  let skipped = deferring_loop accepts n next buf
  let deferred = (defer sm next buf >>= λ r. deferring_loop accepts n r.0 r.1)
  if sm.mv == p.tt_move
      then skipped
      else if accepts sm
      then some (some sm.mv, next, buf)
      else deferred

abbrev pub holds : Node → ScoredMove → Bool
holds node sm = node.see_ge sm.mv (quot (neg sm.score) 18)

abbrev pub is_good_quiet : ScoredMove → Bool
is_good_quiet sm = ltb_ℤ good_quiet_threshold sm.score

unfoldable pub select_good_quiet_walk :
    MovePicker → MoveBuf → Option (Option Move × MovePicker × MoveBuf)
unfolding deferring_loop
select_good_quiet_walk p buf = deferring_loop is_good_quiet (p.end_cur - p.cur) p buf

-- The rest of the quiets is deferred at once. `copy_within` reads its source before it writes.
unfoldable pub defer_rest : MovePicker → MoveBuf → MovePicker × MoveBuf
unfolding entries write
defer_rest p buf =
    let count = p.end_cur - p.cur in
    (
      record p { end_bad_moves = p.end_bad_moves + count; cur = p.end_cur },
      (if p.cur == p.end_bad_captures
          then buf
          else write buf p.end_bad_captures (entries buf p.cur count)),
    )

unfoldable pub sorted_loop : ℕ → MovePicker → MoveBuf → Option (Option Move × MovePicker × MoveBuf)
unfolding defer_rest
sorted_loop zero p buf = some (none, p, buf)
sorted_loop (suc n) p buf = do
  sm ← get_elem? buf p.cur
  let next = record p { cur = p.cur + 1 }
  let rest = sorted_loop n next buf
  if is_good_quiet sm
      then if not (sm.mv == p.tt_move) then some (some sm.mv, next, buf) else rest
      else some (none, (defer_rest p buf).0, (defer_rest p buf).1)

unfoldable pub select_good_quiet_sorted :
    MovePicker → MoveBuf → Option (Option Move × MovePicker × MoveBuf)
unfolding sorted_loop
select_good_quiet_sorted p buf = sorted_loop (p.end_cur - p.cur) p buf

unfoldable pub select_good_quiet :
    MovePicker → MoveBuf → Option (Option Move × MovePicker × MoveBuf)
unfolding select_good_quiet_sorted select_good_quiet_walk sorted_past
select_good_quiet p buf =
    if sorted_past p.depth then select_good_quiet_sorted p buf else select_good_quiet_walk p buf

-- The kind that the first stage generates.
abbrev pub first_kind : Stage → GenType
first_kind evasion = evasions
first_kind _ = captures

unfoldable pub init_first_stage : Node → MovePicker → Option (MovePicker × MoveBuf)
unfolding push_all rescore
init_first_stage node p = do
  let kind = first_kind p.first_stage
  generated ← push_all (node.generate kind) []
  let buf = full_insertion_sort (rescore (node.score kind) generated)
  some (
    record p { cur = 0; end_bad_moves = 0; end_cur = length generated; stage = p.first_stage },
    buf,
  )

unfoldable pub init_quiets : Node → MovePicker → MoveBuf → Option (MovePicker × MoveBuf)
unfolding push_all rescore quiet_sort_limit on_tail
init_quiets node p buf = do
  let from = p.end_bad_moves
  generated ← push_all (node.generate quiets) (take from buf)
  let scored = on_tail from (rescore (node.score quiets)) generated
  some (
    record p { cur = from; end_cur = length scored; stage = good_quiet },
    on_tail from (λ tail. partial_insertion_sort tail (quiet_sort_limit p.depth)) scored,
  )

unfoldable pub enter_bad_moves : MovePicker → MovePicker
enter_bad_moves p = record p { cur = 0; end_cur = p.end_bad_moves; stage = bad_moves }

-- One pass through the loop of `next_move`: it returns a move, or goes on in another stage.
pub data Pass : Type 0 where
  returns : Move → MovePicker → MoveBuf → Pass
  goes_on : MovePicker → MoveBuf → Pass

-- The stages that only read the buffer end the sequence.
abbrev after_select : MoveBuf → Option Move × MovePicker → Option Pass
after_select buf (some m, p) = some (returns m p buf)
after_select buf (none, p) = some (goes_on (record p { stage = finished }) buf)

abbrev after_captures : Node → Option Move × MovePicker × MoveBuf → Option Pass
after_captures node (some m, p, buf) = some (returns m p buf)
after_captures node (none, p, buf) =
    let ended = record p { end_bad_captures = p.end_bad_moves } in
    if ended.skip_quiets
    then some (goes_on (enter_bad_moves ended) buf)
    else (init_quiets node ended buf >>= λ r. some (goes_on r.0 r.1))

abbrev after_quiets : Option Move × MovePicker × MoveBuf → Option Pass
after_quiets (some m, p, buf) = some (returns m p buf)
after_quiets (none, p, buf) = some (goes_on (enter_bad_moves p) buf)

unfoldable pub pass_at : Stage → Node → MovePicker → MoveBuf → Option Pass
unfolding init_first_stage deferring_loop select_good_quiet select init_quiets enter_bad_moves
pass_at tt_stage node p buf = some (returns p.tt_move (record p { stage = init }) buf)
pass_at init node p buf = init_first_stage node p >>= λ r. some (goes_on r.0 r.1)
pass_at good_capture node p buf =
    deferring_loop (holds node) (p.end_cur - p.cur) p buf >>= after_captures node
pass_at good_quiet node p buf = select_good_quiet p buf >>= after_quiets
pass_at bad_moves node p buf = select (λ sm. true) p buf >>= after_select buf
pass_at q_search node p buf = select (λ sm. true) p buf >>= after_select buf
pass_at evasion node p buf = select (λ sm. true) p buf >>= after_select buf
pass_at prob_cut node p buf =
    select (λ sm. node.see_ge sm.mv p.threshold) p buf >>= after_select buf
pass_at finished node p buf = some (returns no_move p buf)

-- The loop of `next_move`, on fuel; `none` also if it runs out.
unfoldable pub next_loop : ℕ → Node → MovePicker → MoveBuf → Option (Move × MovePicker × MoveBuf)
unfolding pass_at
next_loop zero node p buf = none
next_loop (suc fuel) node p buf = pass_at p.stage node p buf >>= λ pass. elim pass [
  | returns m p' buf' ↦ some (m, p', buf')
  | goes_on p' buf' ↦ next_loop fuel node p' buf'
]

unfoldable pub next_move : Node → MovePicker → MoveBuf → Option (Move × MovePicker × MoveBuf)
unfolding next_loop
next_move node p buf = next_loop 6 node p buf
