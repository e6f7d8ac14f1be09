-- ===== src/Board/Bitboard/Members.antt =====
-- A bitboard as a set: membership under the three updates and the set operations.
use rfish.Prelude.{ℕ, ◌^◌, ◌≤◌, ◌<◌, ◌≡◌, arith, ap, sym, ◌∙◌}
use rfish.Prelude.{true, false, not, ◌==◌, if◌then◌else◌, bit_and, bit_or, bit_xor}
use rfish.Prelude.Bits.{digit, digit-lt, digit_ext, digit-bit_and, digit-bit_or, digit-bit_xor}
use rfish.Prelude.Bits.{digit-pow, digit-zero, digit_flip, digit_past, lt-pow_of_digits}
use native.Mathlib.Nat.{one-le-pow}
use native.Mathlib.Decide.{dec_lt}
use rfish.Board.Square.{Square}
use rfish.Board.Bitboard.{Bitboard, contains, set, clear, toggle, not_u64}

-- `&` with one bit leaves this bit or nothing.
bit_and-pow-digit : (b sq i : ℕ) → digit (bit_and b (2 ^ sq)) i ≡ (if sq == i then digit b i else 0)
bit_and-pow-digit b sq i = ground (arith, digit-bit_and i b (2 ^ sq), digit-pow sq i, digit-lt b i)

bit_and-pow :
    (b sq : ℕ)
    → (digit b sq ≡ 0 → bit_and b (2 ^ sq) ≡ 0) × (digit b sq ≡ 1 → bit_and b (2 ^ sq) ≡ 2 ^ sq)
bit_and-pow b sq = (
  (λ h. digit_ext _ 0 (λ i. ground (arith, bit_and-pow-digit b sq i, digit-zero i, at i h))),
  (λ h.
      digit_ext _ (2 ^ sq) (λ i. ground (arith, bit_and-pow-digit b sq i, digit-pow sq i, at i h))),
)
  where
    at : (i : ℕ) {d : ℕ} → digit b sq ≡ d → sq ≡ i → digit b i ≡ d
    at i h e = ap (digit b) (sym e) ∙ h

-- Membership is the digit.
pub contains-digit : (b sq : ℕ) → contains b sq ≡ (digit b sq == 1)
unfolding contains
contains-digit b sq =
    let some_bit : 1 ≤ 2 ^ sq = one-le-pow sq 2 (omega arith) in
    ground (arith, digit-lt b sq, (bit_and-pow b sq).0, (bit_and-pow b sq).1)

pow-lt : (sq : ℕ) → sq < 64 → 2 ^ sq < 2 ^ 64
pow-lt sq h = lt-pow_of_digits 64 (2 ^ sq) (λ i below. ground (arith, digit-pow sq i))

digit-not_u64-pow :
    (sq i : ℕ) → sq < 64 → i < 64 → digit (not_u64 (2 ^ sq)) i ≡ (if sq == i then 0 else 1)
digit-not_u64-pow sq i hs hi =
    ground (arith, digit_flip 64 i (2 ^ sq) (pow-lt sq hs) hi, digit-pow sq i)

-- For squares on the board, each update is the set operation that it names: it changes the membership of its square alone.
pub contains_updates :
    (b : Bitboard) (sq i : Square)
    → sq < 64
    → i < 64
    → (contains (set b sq) i ≡ (if sq == i then true else contains b i))
      × (contains (clear b sq) i ≡ (if sq == i then false else contains b i))
      × (contains (toggle b sq) i ≡ (if sq == i then not (contains b i) else contains b i))
unfolding set clear toggle
contains_updates b sq i hs hi = (
  rw (contains-digit (bit_or b (2 ^ sq)) i, contains-digit b i)
      (ground (arith, digit-bit_or i b (2 ^ sq), digit-pow sq i, digit-lt b i)),
  rw (contains-digit (bit_and b (not_u64 (2 ^ sq))) i, contains-digit b i)
      (ground
        (arith, digit-bit_and i b (not_u64 (2 ^ sq)), digit-not_u64-pow sq i hs hi, digit-lt b i)),
  rw (contains-digit (bit_xor b (2 ^ sq)) i, contains-digit b i)
      (ground (arith, digit-bit_xor i b (2 ^ sq), digit-pow sq i, digit-lt b i)),
)

-- Boards of 64 bits with the same members are equal.
pub contains_ext :
    (a b : Bitboard)
    → a < 2 ^ 64
    → b < 2 ^ 64
    → ((i : Square) → i < 64 → contains a i ≡ contains b i)
    → a ≡ b
contains_ext a b ha hb same = digit_ext a b (λ i. elim (dec_lt i 64) [
  | yes h ↦
      let both : (digit a i == 1) ≡ (digit b i == 1) =
        sym (contains-digit a i) ∙ same i h ∙ contains-digit b i in
      ground (arith, digit-lt a i, digit-lt b i)
  | no h ↦ digit_past 64 i a ha (omega arith) ∙ sym (digit_past 64 i b hb (omega arith))
])
