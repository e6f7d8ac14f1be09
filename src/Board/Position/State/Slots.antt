-- ===== src/Board/Position/State/Slots.antt =====
-- The counts of a placement through a move's writes, and the slots of the material key that they name.
use rfish.Prelude.{ℕ, ◌+◌, ◌-◌, ◌≤◌, ◌<◌, ◌≡◌, arith, refl, ◌∙◌, >>=-some}
use rfish.Prelude.{true, false, some, Bool-cases, inl, inr, update}
use rfish.Prelude.Int.{ℤ, pos, ◌-ℤ◌}
use rfish.Board.Piece.{Color, PieceType, Piece, is_none, new as new_piece, opponent}
use rfish.Board.Bitboard.{any}
use rfish.Board.Bitboard.Steps.{pawn_attacks_from}
use rfish.Prelude.{bit_and}
use rfish.Board.Zobrist.{is_real}
use rfish.Board.Piece.{pawn}
use rfish.Board.Placement.{pieces_of}
use rfish.Board.Square.{Square, shift, pawn_push, new as new_square}
use rfish.Board.Move.{MoveType}
use rfish.Board.Attacks.{Sliders}
use rfish.Board.Zobrist.{Tables}
use rfish.Board.Placement.{Placement, king_square, put_piece, remove_piece, move_piece, swap_piece}
use rfish.Board.Placement.Counts.{occurrences, occurrences-update}
use rfish.Board.Placement.Contract.{IsPlacement, one_less}
use rfish.Board.Position.{StateInfo}
use rfish.Board.Position.Checks.Total.{HasKings}
use rfish.Board.Position.Moves.{capture_square, captured_by, take_captured, promotes, promote}
use rfish.Board.Position.Moves.RoundTrip.{}
use rfish.Board.Position.State.{count_slot, double_push, promote_state}

-- No real piece stands more than `n` times on the board.
abbrev pub Few : ℕ → Placement → Type 0
Few n p = (pc : Piece) → is_real pc ≡ true → occurrences 64 p.board pc ≤ n

Few-update :
    (n : ℕ) (board : Square → Piece) (sq v : ℕ)
    → sq < 64
    → ((pc : Piece) → is_real pc ≡ true → occurrences 64 board pc ≤ n)
    → (pc : Piece) → is_real pc ≡ true
    → occurrences 64 (update board sq v) pc ≤ n + 1
Few-update n board sq v h few pc real =
    let before = few pc real in ground (arith, occurrences-update 64 board sq v pc h, before)

pub Few-put :
    (n : ℕ) (p : Placement) (pc sq : ℕ) → sq < 64 → Few n p → Few (n + 1) (put_piece pc sq p)
unfolding put_piece
Few-put n p pc sq h few = Few-update n p.board sq pc h few

pub Few-remove :
    (n : ℕ) (p : Placement) (sq : ℕ) → sq < 64 → Few n p → Few (n + 1) (remove_piece sq p)
unfolding remove_piece
Few-remove n p sq h few = Few-update n p.board sq 0 h few

pub Few-swap :
    (n : ℕ) (p : Placement) (sq pc : ℕ) → sq < 64 → Few n p → Few (n + 1 + 1) (swap_piece sq pc p)
unfolding swap_piece
Few-swap n p sq pc h few =
    Few-update (n + 1) (update p.board sq 0) sq pc h (Few-update n p.board sq 0 h few)

pub Few-move :
    (n : ℕ) (p : Placement) (from to : ℕ)
    → from < 64
    → to < 64
    → Few n p
    → Few (n + 1 + 1) (move_piece from to p)
unfolding move_piece
Few-move n p from to hf ht few =
    Few-update (n + 1) (update p.board from 0) to (p.board from) ht
      (Few-update n p.board from 0 hf few)

pub count_slot-some :
    (v : ℤ) (n : ℕ) → v ≡ pos n → n ≤ 55 → (slot : Square) × (count_slot v ≡ some slot)
unfolding count_slot new_square
count_slot-some v n e h = (8 + n, rw e (ground arith))

-- The count of a consistent placement.
pub count-pos :
    (q : Placement) (pc : Piece) (n : ℕ)
    → IsPlacement q
    → Few n q
    → is_real pc ≡ true
    → (k : ℕ) × (q.piece_count pc ≡ pos k) × (k ≤ n)
count-pos q pc n h few real = let before = few pc real in (_, h.tallies pc, ground (arith, before))

pub Few-take_captured :
    (mt : MoveType) (us : Color) (to : Square) (p : Placement) (n : ℕ)
    → capture_square mt us to < 64
    → Few n p
    → Few (n + 1) (take_captured mt us to p)
unfolding take_captured
Few-take_captured mt us to p n h few = elim (Bool-cases (is_none (captured_by mt us to p))) [
  | inl none_there ↦ rw none_there (λ pc real. let before = few pc real in omega (arith, before))
  | inr some_victim ↦ rw some_victim (Few-remove n p (capture_square mt us to) h few)
]

pub promote_passes :
    (mt : MoveType) (us : Color) (from to : Square) (promo : PieceType) (pc : Piece) (q : Placement)
    → promotes mt pc from to ≡ true
    → promote mt us from to promo pc q ≡ swap_piece to (new_piece us promo) q
unfolding promote
promote_passes mt us from to promo pc q passes = rw passes refl

pub promote_stays :
    (mt : MoveType) (us : Color) (from to : Square) (promo : PieceType) (pc : Piece) (q : Placement)
    → promotes mt pc from to ≡ false
    → promote mt us from to promo pc q ≡ q
unfolding promote
promote_stays mt us from to promo pc q stays = rw stays refl

pub swap_piece-at : (q : Placement) (sq : Square) (pc : Piece) → (swap_piece sq pc q).board sq ≡ pc
unfolding swap_piece
swap_piece-at q sq pc = ground arith

pub promote_state-of :
    (keys : Tables) (us : Color) (to : Square) (promo : PieceType) (pc : Piece) (q : Placement)
    (st : StateInfo) (new_count old_count : ℕ)
    → q.piece_count (new_piece us promo) ≡ pos new_count
    → 1 ≤ new_count
    → new_count ≤ 55
    → q.piece_count pc ≡ pos old_count
    → old_count ≤ 55
    → (st' : StateInfo) × (promote_state keys us to promo pc q st ≡ some st')
unfolding promote_state
promote_state-of keys us to promo pc q st n m new one small old few =
    let one_less : q.piece_count (new_piece us promo) -ℤ pos 1 ≡ pos (n - 1) =
      rw new (one_less n one) in
    let (promo_slot, promo_found) = count_slot-some _ (n - 1) one_less (omega arith) in
    let (pawn_slot, pawn_found) = count_slot-some _ m old few in
    (
      _,
      >>=-some (count_slot (q.piece_count (new_piece us promo) -ℤ pos 1)) _ promo_found
          ∙ >>=-some (count_slot (q.piece_count pc)) _ pawn_found,
    )

pub double_push-of :
    (keys : Tables) (sl : Sliders) (us : Color) (from to : Square) (q : Placement) (st : StateInfo)
    → HasKings q
    → (st' : StateInfo) × (double_push keys sl us from to q st ≡ some st')
unfolding double_push
double_push-of keys sl us from to q st kings =
    elim (Bool-cases (
      any (
        bit_and (pawn_attacks_from us (shift to (pawn_push (opponent us))))
          (pieces_of q (opponent us) pawn)))) [
            | inl attacked ↦
                rw attacked (_, >>=-some (king_square q (opponent us)) _ (kings (opponent us)).1)
            | inr quiet ↦ rw quiet (st, refl)
          ]
