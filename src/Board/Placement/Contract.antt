-- ===== src/Board/Placement/Contract.antt =====
-- What the sets and the counts beside the board must say of it, and that each write keeps it so.
use rfish.Prelude.{ℕ, ◌+◌, ◌-◌, ◌≤◌, ◌<◌, ◌≡◌, ◌≢◌, arith, refl, ap, sym, ◌∙◌}
use rfish.Prelude.{
  Bool, true, false, not, ◌&&◌, ◌||◌, ◌==◌, if◌then◌else◌, all_below, all_below_sound,
}
use rfish.Prelude.{bit_or, bit_xor, modify, update, Bool-cases, inl, inr}
use rfish.Prelude.Int.{pos, ◌+ℤ◌, ◌-ℤ◌}
use native.Mathlib.Decide.{dec_lt}
use rfish.Board.Piece.{Piece, no_piece, piece_type}
use rfish.Board.Square.{Square}
use rfish.Board.Zobrist.{is_real}
use rfish.Prelude.{zero, suc}
use rfish.Prelude.Bits.{digit-zero}
use rfish.Board.Bitboard.Members.{contains-digit}
use rfish.Board.Bitboard.{Bitboard, empty, contains, set, toggle, from_square}
use rfish.Board.Placement.{
  Placement, blank, put_piece, remove_piece, move_piece, color_slot, type_slot,
}
use rfish.Board.Placement.Planes.{
  IsPlane, IsPlane-unique, IsPlane-put, IsPlane-remove, IsPlane-move,
}
use rfish.Board.Placement.Counts.{occurrences, occurrences-update, occurrences_ext}

-- Set 0 is the occupancy.
abbrev pub of_type : ℕ → Piece → Bool
of_type t pc = not (pc == 0) && (t == 0 || type_slot pc == t)

abbrev pub of_color : ℕ → Piece → Bool
of_color c pc = not (pc == 0) && color_slot pc == c

pub record IsPlacement (p : Placement) : Type 0 where
  pub IsPiece : (sq : Square) → (p.board sq == 0 || is_real (p.board sq)) ≡ true
  pub off_board : (sq : Square) → 64 ≤ sq → p.board sq ≡ no_piece
  pub types : (t : ℕ) → IsPlane (λ sq. of_type t (p.board sq)) (p.by_type t)
  pub colors : (c : ℕ) → IsPlane (λ sq. of_color c (p.board sq)) (p.by_color c)
  pub tallies :
      (pc : Piece) → p.piece_count pc ≡ pos (if pc == 0 then 0 else occurrences 64 p.board pc)

-- A real piece has one of the six types.
slots : all_below 16 (λ pc. not (is_real pc) || not (type_slot pc == 0)) ≡ true
unfolding all_below piece_type
slots = refl

real-slot : (pc : Piece) → is_real pc ≡ true → type_slot pc ≢ 0
real-slot pc h e =
    let checked =
      all_below_sound 16 (λ x. not (is_real x) || not (type_slot x == 0)) pc slots (ground arith) in
    ground arith

-- Two writes to the sets by type are one to each set that the piece belongs to.
module _ (by_type : ℕ → Bitboard) (g : Bitboard → Bitboard) (pc : Piece)
    (real : is_real pc ≡ true) where
  write_types :
      (t : ℕ)
      → modify (modify by_type 0 g) (type_slot pc) g t
        ≡ (if of_type t pc then g (by_type t) else by_type t)
  write_types t = ground (arith, real-slot pc real)

  write_colors :
      (c : ℕ)
      → modify by_type (color_slot pc) g c ≡ (if of_color c pc then g (by_type c) else by_type c)
  write_colors c = ground arith

one_more : (m : ℕ) → pos m +ℤ pos 1 ≡ pos (m + 1)
unfolding ◌+ℤ◌
one_more m = ground arith

pub one_less : (m : ℕ) → 1 ≤ m → pos m -ℤ pos 1 ≡ pos (m - 1)
unfolding ◌-ℤ◌
one_less m h = ground arith

-- The board passes a test everywhere once the written piece does.
update_holds :
    (f : Piece → Bool) (board : Square → Piece) (sq v : ℕ)
    → ((x : Square) → f (board x) ≡ true)
    → f v ≡ true
    → (i : Square) → f (update board sq v i) ≡ true
update_holds f board sq v before new i = elim (Bool-cases (sq == i)) [
  | inl e ↦ rw e new
  | inr e ↦ rw e (before i)
]

abbrev is_piece : Piece → Bool
is_piece pc = pc == 0 || is_real pc

-- Putting a real piece on an empty square keeps the sets and the counts true of the board.
pub put_piece-IsPlacement :
    (p : Placement) (pc : Piece) (sq : Square)
    → IsPlacement p
    → is_real pc ≡ true
    → sq < 64
    → p.board sq ≡ no_piece
    → IsPlacement (put_piece pc sq p)
unfolding put_piece
put_piece-IsPlacement p pc sq h real hs free = record {
  IsPiece = update_holds is_piece p.board sq pc h.IsPiece (ground arith);
  off_board = λ i past. ground (arith, h.off_board i);
  types = λ t.
      rw (write_types p.by_type (λ b. set b sq) pc real t)
        (IsPlane-put (of_type t) refl p.board (p.by_type t) pc sq (h.types t) hs free);
  colors = λ c.
      rw (write_colors p.by_color (λ b. set b sq) pc real c)
        (IsPlane-put (of_color c) refl p.board (p.by_color c) pc sq (h.colors c) hs free);
  tallies = λ k. ground (
    arith,
    h.tallies k,
    free,
    one_more (occurrences 64 p.board k),
    occurrences-update 64 p.board sq pc k hs,
  );
}

-- Removing a real piece keeps the sets and the counts true of the board.
pub remove_piece-IsPlacement :
    (p : Placement) (sq : Square)
    → IsPlacement p
    → is_real (p.board sq) ≡ true
    → sq < 64
    → IsPlacement (remove_piece sq p)
unfolding remove_piece
remove_piece-IsPlacement p sq h real hs = record {
  IsPiece = update_holds is_piece p.board sq no_piece h.IsPiece refl;
  off_board = λ i past. ground (arith, h.off_board i);
  types = λ t.
      rw (write_types p.by_type (λ b. toggle b sq) (p.board sq) real t)
        (IsPlane-remove (of_type t) refl p.board (p.by_type t) sq (h.types t) hs);
  colors = λ c.
      rw (write_colors p.by_color (λ b. toggle b sq) (p.board sq) real c)
        (IsPlane-remove (of_color c) refl p.board (p.by_color c) sq (h.colors c) hs);
  tallies = λ k. ground (
    arith,
    h.tallies k,
    one_less (occurrences 64 p.board k),
    occurrences-update 64 p.board sq no_piece k hs,
  );
}

-- Moving a real piece to another, empty square keeps the sets and the counts true of the board.
pub move_piece-IsPlacement :
    (p : Placement) (from to : Square)
    → IsPlacement p
    → is_real (p.board from) ≡ true
    → from < 64
    → to < 64
    → from ≢ to
    → p.board to ≡ no_piece
    → IsPlacement (move_piece from to p)
unfolding move_piece
move_piece-IsPlacement p from to h real hf ht ne free =
    let delta = bit_or (from_square from) (from_square to) in
    record {
      IsPiece =
          update_holds is_piece (update p.board from no_piece) to (p.board from)
            (update_holds is_piece p.board from no_piece h.IsPiece refl) (h.IsPiece from);
      off_board = λ i past. ground (arith, h.off_board i);
      types = λ t.
          rw (write_types p.by_type (λ b. bit_xor b delta) (p.board from) real t)
            (IsPlane-move (of_type t) refl p.board (p.by_type t) from to (h.types t) hf ht ne free);
      colors = λ c. rw (write_colors p.by_color (λ b. bit_xor b delta) (p.board from) real c) (
          IsPlane-move (of_color c) refl p.board (p.by_color c) from to (h.colors c) hf ht ne free);
      tallies = λ k. ground (
        arith,
        h.tallies k,
        free,
        ne,
        occurrences-update 64 p.board from no_piece k hf,
        occurrences-update 64 (update p.board from no_piece) to (p.board from) k ht,
      );
    }

-- The board determines the sets and the counts that are true of it.
pub IsPlacement-unique :
    (p q : Placement)
    → IsPlacement p
    → IsPlacement q
    → ((sq : Square) → sq < 64 → p.board sq ≡ q.board sq)
    → p ≡ q
IsPlacement-unique p q hp hq same =
    let boards : (sq : Square) → p.board sq ≡ q.board sq = (λ sq. elim (dec_lt sq 64) [
      | yes h ↦ same sq h
      | no h ↦ hp.off_board sq (omega arith) ∙ sym (hq.off_board sq (omega arith))
    ]) in
    (λ i. record {
      board = λ sq. boards sq i;
      by_type = λ t. types_agree t i;
      by_color = λ c. colors_agree c i;
      piece_count = λ pc. counts_agree pc i;
    })
  where
    moved :
        (f : Piece → Bool) (b : Bitboard)
        → IsPlane (λ sq. f (p.board sq)) b
        → IsPlane (λ sq. f (q.board sq)) b
    moved f b h = record { fits = h.fits; same = λ sq hs. h.same sq hs ∙ ap f (same sq hs) }

    types_agree : (t : ℕ) → p.by_type t ≡ q.by_type t
    types_agree t =
        IsPlane-unique (λ sq. of_type t (q.board sq)) _ _ (moved (of_type t) _ (hp.types t))
          (hq.types t)

    colors_agree : (c : ℕ) → p.by_color c ≡ q.by_color c
    colors_agree c =
        IsPlane-unique (λ sq. of_color c (q.board sq)) _ _ (moved (of_color c) _ (hp.colors c))
          (hq.colors c)

    counts_agree : (pc : Piece) → p.piece_count pc ≡ q.piece_count pc
    counts_agree pc =
        hp.tallies pc ∙ rw (occurrences_ext 64 p.board q.board pc same) (sym (hq.tallies pc))

pub occurrences-blank : (n : ℕ) (pc : Piece) → pc ≢ 0 → occurrences n (λ sq. no_piece) pc ≡ 0
unfolding occurrences
occurrences-blank zero pc ne = refl
occurrences-blank (suc n) pc ne = ground (arith, occurrences-blank n pc ne, ne)

-- The sets and the counts of the blank board are true of it.
pub blank-IsPlacement : IsPlacement blank
blank-IsPlacement = record {
  IsPiece = λ sq. refl;
  off_board = λ sq past. refl;
  types = λ t. record { fits = omega arith; same = λ sq hs. contains-empty sq };
  colors = λ c. record { fits = omega arith; same = λ sq hs. contains-empty sq };
  tallies = λ pc. ground (arith, occurrences-blank 64 pc);
}
  where
    contains-empty : (sq : Square) → contains empty sq ≡ false
    contains-empty sq = ground (arith, contains-digit empty sq, digit-zero sq)
