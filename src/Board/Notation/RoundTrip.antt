-- ===== src/Board/Notation/RoundTrip.antt =====
-- The names of moves read back.
use rfish.Prelude.{
  ◌≡◌, ◌∙◌, refl, arith, ap, sym, Bool, true, false, ◌&&◌, ◌||◌, ◌==◌, if◌then◌else◌,
}
use rfish.Prelude.{Bool-cases, inl, inr, ==_iff}
use rfish.Prelude.{Option, none, some, >>=-some, List, [], ◌∷◌, ◌++◌, All}
use rfish.Board.Move.{
  Move, MoveType, castling, move_type, is_none, null_move, from_square, to_square,
}
use rfish.Board.Attacks.{Sliders}
use rfish.Board.Position.{Position}
use rfish.Board.MoveGen.Legal.{generate_legal}
use rfish.Board.Legality.{contains_move}
use rfish.Board.Notation.{
  Text, same_text, squares_text, promotion_text, render, names_king, king_text, move_to_uci,
  is_named, find_named, parse_uci_move,
}

same_text_refl : (t : Text) → same_text t t ≡ true
unfolding same_text
same_text_refl [] = refl
same_text_refl (a ∷ s) = let rest = same_text_refl s in ground (arith, rest)

-- The names of a move: its rendering, and outside Chess960 the king's two squares for castling.
pub data Names (p : Position) (m : Move) : Text → Type 0 where
  rendered : Names p m (render m)
  by_king : move_type m ≡ MoveType.castling → p.chess960 ≡ false → Names p m (king_text m)

Names-is_named : (p : Position) (m : Move) {uci : Text} → Names p m uci → is_named p uci m ≡ true
unfolding is_named names_king
Names-is_named p m rendered = let own = same_text_refl (render m) in ground (arith, own)
Names-is_named p m (by_king ty standard) =
    let own = same_text_refl (king_text m) in rw (ty, standard) (ground (arith, own))

unnamed : (p : Position) (uci : Text) (m : Move) → is_named p uci m ≡ false → Names p m uci → ⊥
unnamed p uci m other name = let named = Names-is_named p m name in absurd (cc (other, named))

-- What a text is read as: the first move of a list that has it for a name, or none if none has.
pub data FirstNamed (p : Position) (uci : Text) : List Move → Option Move → Type 0 where
  absent : {ms : List Move} → All (λ (m : Move). ¬ (Names p m uci)) ms → FirstNamed p uci ms none
  found :
      (before : List Move) (m : Move) (after : List Move)
      → All (λ (x : Move). ¬ (Names p x uci)) before
      → Names p m uci
      → FirstNamed p uci (before ++ m ∷ after) (some m)

either_name :
    (a b c : Bool) (unnamed null king shown : Text)
    → (same_text (if a then unnamed else if b then null else shown) (
          if a
          then unnamed
          else if b
          then null
          else if c
          then king
          else if a
          then unnamed
          else if b
          then null
          else shown)
        || (c
            && same_text king (
                if a
                then unnamed
                else if b
                then null
                else if c
                then king
                else if a
                then unnamed
                else if b
                then null
                else shown)))
      ≡ true
either_name true b c unnamed null king shown = rw (same_text_refl unnamed) refl
either_name false true c unnamed null king shown = rw (same_text_refl null) refl
either_name false false false unnamed null king shown = rw (same_text_refl shown) refl
either_name false false true unnamed null king shown =
    let own = same_text_refl king in ground (arith, own)

named_itself : (p : Position) (m : Move) → is_named p (move_to_uci p m) m ≡ true
unfolding move_to_uci is_named render
named_itself p m =
    either_name (is_none m) (m == null_move) (names_king p m) _ _ (king_text m)
      (squares_text (from_square m) (to_square m) ++ promotion_text m)

found_one :
    (p : Position) (uci : Text) (m : Move) (ms : List Move)
    → contains_move ms m ≡ true
    → is_named p uci m ≡ true
    → ((x : Move) → contains_move ms x ≡ true → is_named p uci x ≡ true → x ≡ m)
    → find_named p uci ms ≡ some m
unfolding find_named contains_move
found_one p uci m [] inside named alone = cc
found_one p uci m (x ∷ ms) inside named alone = elim (Bool-cases (is_named p uci x)) [
  | inl here ↦ rw here (ap some (alone x (ground arith) here))
  | inr other ↦
      let apart : (x == m) ≡ false = elim (Bool-cases (x == m)) [
        | inr differs ↦ differs
        | inl same ↦ absurd (cc (sym (ap (is_named p uci) ((==_iff x m).0 same)) ∙ other, named))
      ] in
      rw other (
        found_one p uci m ms (rw apart at inside) named
          (λ y listed. alone y (ground (arith, listed))))
]

-- A legal move that no other legal move shares its name with is read back from its name.
pub parse_uci_move-move_to_uci :
    (sl : Sliders) (p : Position) (m : Move) {ms : List Move}
    → generate_legal sl p ≡ some ms
    → contains_move ms m ≡ true
    → ((x : Move) → contains_move ms x ≡ true → is_named p (move_to_uci p m) x ≡ true → x ≡ m)
    → parse_uci_move sl p (move_to_uci p m) ≡ some (some m)
unfolding parse_uci_move
parse_uci_move-move_to_uci sl p m {ms} listed inside alone =
    >>=-some (generate_legal sl p) _ listed
    ∙ ap some (found_one p (move_to_uci p m) m ms inside (named_itself p m) alone)
