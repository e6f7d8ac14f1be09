-- ===== src/Board/MoveGen/Pieces.antt =====
-- What `generate_for` generates: each step that a piece may take, and no other, once.
use rfish.Prelude.{
  ℕ, zero, suc, ◌+◌, ◌*◌, ◌^◌, ◌≤◌, ◌<◌, ◌≡◌, ◌∙◌, refl, arith, ap, ap₂, sym, subst,
}
use rfish.Prelude.{
  Bool, true, false, not, ◌&&◌, ◌||◌, ◌==◌, if◌then◌else◌, Bool-cases, inl, inr, ==_iff,
}
use rfish.Prelude.{List, [], ◌∷◌, ◌++◌, All, bit_and}
use rfish.Prelude.Bits.{digit-bit_and, digit-lt, digit_flip}
use rfish.Board.Square.{Square}
use rfish.Board.Piece.{knight}
use rfish.Board.Move.{new, from_square, to_square, normal}
use rfish.Board.Move.Encoding.{new-eq-typed, typed_fields}
use rfish.Board.Bitboard.{Bitboard, contains, squares, not_u64}
use rfish.Board.Bitboard.Members.{contains-digit}
use rfish.Board.Bitboard.Pop.{ascending, squares-ascending}
use rfish.Board.Bitboard.Lowest.{bit_and_fits, bit_and_fits_left}
use rfish.Board.Attacks.{Sliders}
use rfish.Board.MoveGen.{each_to, each_from, generate_for}

abbrev pub once : Bool → ℕ
once b = if b then 1 else 0

-- How often a number, a square or a move, is in a list.
unfoldable pub times : ℕ → List ℕ → ℕ
times n [] = 0
times n (x ∷ xs) = once (x == n) + times n xs

times-append : (n : ℕ) (xs ys : List ℕ) → times n (xs ++ ys) ≡ times n xs + times n ys
unfolding times
times-append n [] ys = omega arith
times-append n (x ∷ xs) ys = omega (arith, times-append n xs ys)

abbrev Low : List Square → Type 0
Low l = All (λ (sq : Square). sq < 64) l

ascending_bounds : (w base : ℕ) (p : Square → Bool) → base + w ≤ 64 → Low (ascending w base p)
unfolding ascending
ascending_bounds zero base p fits = tt
ascending_bounds (suc w) base p fits = elim (Bool-cases (p base)) [
  | inl here ↦ rw here (omega arith, ascending_bounds w (base + 1) p (omega arith))
  | inr not_here ↦ rw not_here (ascending_bounds w (base + 1) p (omega arith))
]

times-ascending_low :
    (w base : ℕ) (p : Square → Bool) (sq : Square) → sq < base → times sq (ascending w base p) ≡ 0
unfolding ascending times
times-ascending_low zero base p sq under = refl
times-ascending_low (suc w) base p sq under =
    ground (arith, times-ascending_low w (base + 1) p sq (omega arith))

times-ascending :
    (w base : ℕ) (p : Square → Bool) (sq : Square)
    → base ≤ sq
    → sq < base + w
    → times sq (ascending w base p) ≡ once (p sq)
unfolding ascending times
times-ascending zero base p sq low high = absurd (omega arith)
times-ascending (suc w) base p sq low high = elim (Bool-cases (base == sq)) [
  | inl here ↦
      let at : base ≡ sq = ground (arith, here) in
      let none_after = times-ascending_low w (base + 1) p sq (omega (arith, at)) in
      ground (arith, at, ap p at, none_after, here)
  | inr later ↦
      let behind = times-ascending w (base + 1) p sq (ground (arith, later)) (omega arith) in
      ground (arith, behind, later)
]

pub squares_bounds : (b : Bitboard) → b < 2 ^ 64 → Low (squares b)
squares_bounds b fits =
    subst Low (sym (squares-ascending b fits)) (ascending_bounds 64 0 (contains b) (omega arith))

pub times-squares :
    (b : Bitboard) (sq : Square)
    → b < 2 ^ 64
    → sq < 64
    → times sq (squares b) ≡ once (contains b sq)
times-squares b sq fits low =
    ap (times sq) (squares-ascending b fits)
    ∙ times-ascending 64 0 (contains b) sq (omega arith) (omega arith)

pub contains_both :
    (a b : Bitboard) (sq : Square) → contains (bit_and a b) sq ≡ (contains a sq && contains b sq)
contains_both a b sq = ground (
  arith,
  contains-digit (bit_and a b) sq,
  contains-digit a sq,
  contains-digit b sq,
  digit-bit_and sq a b,
  digit-lt a sq,
  digit-lt b sq,
)

pub contains-not_u64 :
    (b : Bitboard) (sq : Square)
    → b < 2 ^ 64
    → sq < 64
    → contains (not_u64 b) sq ≡ not (contains b sq)
contains-not_u64 b sq fits low = ground (
  arith,
  contains-digit (not_u64 b) sq,
  contains-digit b sq,
  digit_flip 64 sq b fits low,
  digit-lt b sq,
)

fields-new :
    (from to : Square)
    → from < 64
    → to < 64
    → (from_square (new from to) ≡ from) × (to_square (new from to) ≡ to)
fields-new from to hf ht =
    let fields = typed_fields normal from to knight hf ht (omega arith) in
    let same = new-eq-typed from to hf ht in
    (ap from_square same ∙ fields.1, ap to_square same ∙ fields.2)

-- Two plain moves are one exactly when their squares are.
new-eq :
    (a b f t : Square)
    → a < 64
    → b < 64
    → f < 64
    → t < 64
    → (new a b == new f t) ≡ ((a == f) && (b == t))
new-eq a b f t ha hb hf ht = elim (Bool-cases (new a b == new f t)) [
  | inl same ↦
      let equal : new a b ≡ new f t = ground (arith, same) in
      let from : a ≡ f =
        sym (fields-new a b ha hb).0 ∙ ap from_square equal ∙ (fields-new f t hf ht).0 in
      let to : b ≡ t =
        sym (fields-new a b ha hb).1 ∙ ap to_square equal ∙ (fields-new f t hf ht).1 in
      ground (arith, same, from, to)
  | inr other ↦ elim (Bool-cases ((a == f) && (b == t))) [
    | inr apart ↦ other ∙ sym apart
    | inl both ↦
        let from : a ≡ f = ground (arith, both) in
        let to : b ≡ t = ground (arith, both) in
        let equal : new a b ≡ new f t = ap₂ new from to in absurd (ground (arith, other, equal))
  ]
]

one_more : (n k : ℕ) → k + n * k ≡ (1 + n) * k
one_more n k = grind arith

none_more : (n k : ℕ) → 0 + n * k ≡ (0 + n) * k
none_more n k = grind arith

module _ (f t : Square) (hf : f < 64) (ht : t < 64) where
  times-each_to :
      (from : Square) (l : List Square)
      → from < 64
      → Low l
      → times (new f t) (each_to (λ to. new from to) l) ≡ (if from == f then times t l else 0)
  unfolding each_to times
  times-each_to from [] h low = ground arith
  times-each_to from (to ∷ l) h low =
      ground (arith, times-each_to from l h low.1, new-eq from to f t h low.0 hf ht)

  times-each_from :
      (targets : Square → Bitboard) (l : List Square)
      → ((from : Square) → targets from < 2 ^ 64)
      → Low l
      → times (new f t) (each_from targets l) ≡ times f l * once (contains (targets f) t)
  unfolding each_from times
  times-each_from targets [] fits low = omega arith
  times-each_from targets (from ∷ l) fits low =
      let here =
        times-each_to from (squares (targets from)) low.0
          (squares_bounds (targets from) (fits from)) in
      let rest = times-each_from targets l fits low.1 in
      let count = times-squares (targets from) t (fits from) ht in
      let split =
        times-append (new f t) (each_to (λ to. new from to) (squares (targets from)))
          (each_from targets l) in
      let one = once (contains (targets f) t) in
      elim (Bool-cases (from == f)) [
        | inl same ↦
            let at = (==_iff from f).0 same in
            let count_here = count ∙ ap (λ s. once (contains (targets s) t)) at in
            rw same (
              split
              ∙ ap₂ (λ a b. a + b)
                  (here
                    ∙ ap (λ b. if b then times t (squares (targets from)) else 0) same
                    ∙ count_here)
                  rest
              ∙ one_more (times f l) one)
        | inr other ↦ rw other (
            split
            ∙ ap₂ (λ a b. a + b)
                (here ∙ ap (λ b. if b then times t (squares (targets from)) else 0) other) rest
            ∙ none_more (times f l) one)
      ]

steps_sum :
    (own reached wanted pin stays along : Bool)
    → once (own && not pin) * once (reached && wanted)
        + (if stays then 0 else once (own && pin) * once ((reached && wanted) && along))
      ≡ once (own && reached && wanted && (not pin || (not stays && along)))
steps_sum false reached wanted pin stays along = ground arith
steps_sum true reached wanted true true along = ground arith
steps_sum true reached wanted true false along = ground arith
steps_sum true reached wanted false stays along = ground arith

times_if :
    (n : ℕ) (b : Bool) (l : List ℕ) → times n (if b then [] else l) ≡ (if b then 0 else times n l)
unfolding times
times_if n true l = refl
times_if n false l = refl

-- What a piece may do: it is there, it reaches the target, and, pinned, it stays on the line through its
-- king; a pinned knight does not move.
abbrev pub may_step :
    Sliders
    → Square
    → Bitboard
    → Bitboard
    → Bitboard
    → Bool
    → (Square → Bitboard)
    → Square
    → Square
    → Bool
may_step sl ksq own pinned target is_knight reach f t =
    contains own f
    && contains (reach f) t
    && contains target t
    && (not (contains pinned f) || (not is_knight && contains (sl.line_bb ksq f) t))

-- For sets of 64 squares, the generator for a kind of piece lists the plain move between two squares
-- once when a piece there may step so, and not at all otherwise.
pub times-generate_for :
    (sl : Sliders) (ksq : Square) (own pinned target : Bitboard) (is_knight : Bool)
    (reach : Square → Bitboard) (f t : Square)
    → own < 2 ^ 64
    → pinned < 2 ^ 64
    → target < 2 ^ 64
    → f < 64
    → t < 64
    → times (new f t) (generate_for sl ksq own pinned target is_knight reach)
      ≡ once (may_step sl ksq own pinned target is_knight reach f t)
unfolding generate_for times
times-generate_for sl ksq own pinned target is_knight reach f t own_fits pin_fits target_fits hf
      ht =
    let free = bit_and own (not_u64 pinned) in
    let held = bit_and own pinned in
    let to_free = λ (from : Square). bit_and (reach from) target in
    let to_held = λ (from : Square). bit_and (bit_and (reach from) target) (sl.line_bb ksq from) in
    let free_fits = bit_and_fits_left own (not_u64 pinned) own_fits in
    let held_fits = bit_and_fits own pinned pin_fits in
    let reach_fits = λ (from : Square). bit_and_fits (reach from) target target_fits in
    let line_fits = λ (from : Square).
      bit_and_fits_left (bit_and (reach from) target) (sl.line_bb ksq from) (reach_fits from) in
    let first =
      times-each_from f t hf ht to_free (squares free) reach_fits (squares_bounds free free_fits) in
    let second =
      times-each_from f t hf ht to_held (squares held) line_fits (squares_bounds held held_fits) in
    let both =
      times-append (new f t) (each_from to_free (squares free))
        (if is_knight then [] else each_from to_held (squares held)) in
    let free_count : times f (squares free) ≡ once (contains own f && not (contains pinned f)) =
      times-squares free f free_fits hf
      ∙ ap once (
          contains_both own (not_u64 pinned) f
          ∙ ap (λ b. contains own f && b) (contains-not_u64 pinned f pin_fits hf)) in
    let held_count : times f (squares held) ≡ once (contains own f && contains pinned f) =
      times-squares held f held_fits hf ∙ ap once (contains_both own pinned f) in
    let reached = contains_both (reach f) target t in
    let along =
      contains_both (bit_and (reach f) target) (sl.line_bb ksq f) t
      ∙ ap (λ b. b && contains (sl.line_bb ksq f) t) reached in
    both
    ∙ ap (λ n. times (new f t) (each_from to_free (squares free)) + n)
        (times_if (new f t) is_knight (each_from to_held (squares held)))
    ∙ ap₂ (λ a b. a + (if is_knight then 0 else b)) first second
    ∙ ap₂
        (λ a b.
          a * once b
          + (if is_knight
              then 0
              else times f (squares held)
                * once (contains (bit_and (bit_and (reach f) target) (sl.line_bb ksq f)) t)))
        free_count reached
    ∙ ap₂
        (λ a b.
          once (contains own f && not (contains pinned f))
            * once (contains (reach f) t && contains target t)
          + (if is_knight then 0 else a * once b))
        held_count along
    ∙ steps_sum (contains own f) (contains (reach f) t) (contains target t) (contains pinned f)
        is_knight (contains (sl.line_bb ksq f) t)
