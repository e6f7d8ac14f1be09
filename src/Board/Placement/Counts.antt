-- ===== src/Board/Placement/Counts.antt =====
-- How often a piece stands on the board, and what a write to the board does to that.
use rfish.Prelude.{
  ℕ, zero, suc, ◌+◌, ◌≤◌, ◌<◌, ◌≡◌, refl, arith, ap, sym, ◌∙◌, ◌==◌, if◌then◌else◌, update,
}
use native.Mathlib.Decide.{ℕ_discrete}
use rfish.Board.Piece.{Piece}
use rfish.Board.Square.{Square}

abbrev pub is_at : (Square → Piece) → Piece → Square → ℕ
is_at board pc sq = if board sq == pc then 1 else 0

-- Among the squares below a bound.
unfoldable pub occurrences : ℕ → (Square → Piece) → Piece → ℕ
occurrences zero board pc = 0
occurrences (suc n) board pc = is_at board pc n + occurrences n board pc

occurrences-update_past :
    (n : ℕ) (board : Square → Piece) (sq v pc : ℕ)
    → n ≤ sq
    → occurrences n (update board sq v) pc ≡ occurrences n board pc
unfolding occurrences
occurrences-update_past zero board sq v pc h = refl
occurrences-update_past (suc n) board sq v pc h =
    ground (arith, occurrences-update_past n board sq v pc (omega arith))

-- A write to a square counts the new piece and no longer the old one.
pub occurrences-update :
    (n : ℕ) (board : Square → Piece) (sq v pc : ℕ)
    → sq < n
    → occurrences n (update board sq v) pc + is_at board pc sq
      ≡ occurrences n board pc + (if v == pc then 1 else 0)
unfolding occurrences
occurrences-update zero board sq v pc h = absurd (omega arith)
occurrences-update (suc n) board sq v pc h = elim (ℕ_discrete sq n) [
  | yes e ↦ ground (arith, occurrences-update_past n board sq v pc (omega arith), e)
  | no ne ↦ ground (arith, occurrences-update n board sq v pc (omega arith), ne)
]

pub occurrences_ext :
    (n : ℕ) (f g : Square → Piece) (pc : ℕ)
    → ((sq : Square) → sq < n → f sq ≡ g sq)
    → occurrences n f pc ≡ occurrences n g pc
unfolding occurrences
occurrences_ext zero f g pc same = refl
occurrences_ext (suc n) f g pc same =
    let rest = occurrences_ext n f g pc (λ sq h. same sq (omega arith)) in
    rw (same n (omega arith), rest)

-- A piece that stands somewhere is counted.
pub occurrences_positive :
    (n : ℕ) (board : Square → Piece) (sq pc : ℕ)
    → sq < n
    → board sq ≡ pc
    → 1 ≤ occurrences n board pc
unfolding occurrences
occurrences_positive zero board sq pc h at = absurd (omega arith)
occurrences_positive (suc n) board sq pc h at = elim (ℕ_discrete sq n) [
  | yes e ↦ let here : board n ≡ pc = ap board (sym e) ∙ at in ground (arith, here)
  | no ne ↦ ground (arith, occurrences_positive n board sq pc (omega arith) at)
]
