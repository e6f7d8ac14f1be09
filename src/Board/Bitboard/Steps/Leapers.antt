-- ===== src/Board/Bitboard/Steps/Leapers.antt =====
-- The step tables against the geometry of the board.
use rfish.Prelude.{◌/◌, ◌%◌, ◌<◌, ◌≡◌, arith, refl, Bool, true, false, ◌&&◌, ◌||◌, ◌==◌, not}
use rfish.Prelude.{all_below, all_below_sound}
use rfish.Board.Piece.{Color, white, black}
use rfish.Board.Square.{Square, apart, distance}
use rfish.Board.Bitboard.{contains, from_square, pawn_attacks}
use rfish.Board.Bitboard.Steps.{knight_attacks, king_attacks, pawn_attacks_from}

agrees : Bool → Bool → Bool
agrees true b = b
agrees false b = not b

agrees_sound : (x y : Bool) → agrees x y ≡ true → x ≡ y
unfolding agrees
agrees_sound true y h = cc
agrees_sound false true h = cc
agrees_sound false false h = refl

-- One file and two ranks apart, or two files and one rank.
abbrev pub is_knight_move : Square → Square → Bool
is_knight_move a b =
    (apart (a % 8) (b % 8) == 1 && apart (a / 8) (b / 8) == 2)
    || (apart (a % 8) (b % 8) == 2 && apart (a / 8) (b / 8) == 1)

king_right : Square → Square → Bool
king_right a b = agrees (contains (king_attacks a) b) (distance a b == 1)

knight_right : Square → Square → Bool
knight_right a b = agrees (contains (knight_attacks a) b) (is_knight_move a b)

king_table : all_below 64 (λ a. all_below 64 (king_right a)) ≡ true
unfolding all_below king_right agrees contains king_attacks distance
king_table = refl

knight_table : all_below 64 (λ a. all_below 64 (knight_right a)) ≡ true
unfolding all_below knight_right agrees contains knight_attacks
knight_table = refl

-- The king attacks the squares at distance one, and the knight the squares one file and two ranks, or
-- two files and one rank, away: no step wraps round an edge.
pub leaper_attacks :
    (a b : Square)
    → a < 64
    → b < 64
    → (contains (king_attacks a) b ≡ (distance a b == 1))
      × (contains (knight_attacks a) b ≡ is_knight_move a b)
unfolding king_right knight_right
leaper_attacks a b low_a low_b = (
  agrees_sound (contains (king_attacks a) b) (distance a b == 1) (
      all_below_sound 64 (king_right a) b
        (all_below_sound 64 (λ x. all_below 64 (king_right x)) a king_table low_a) low_b),
  agrees_sound (contains (knight_attacks a) b) (is_knight_move a b) (
      all_below_sound 64 (knight_right a) b
        (all_below_sound 64 (λ x. all_below 64 (knight_right x)) a knight_table low_a) low_b),
)

pawn_table :
    (c : Color) → all_below 64 (λ s. pawn_attacks_from c s == pawn_attacks (from_square s) c) ≡ true
unfolding all_below pawn_attacks_from pawn_attacks from_square
pawn_table white = refl
pawn_table black = refl

-- The table of one pawn's attacks agrees with the shifts of a set of pawns.
pub pawn_attacks_from_lem :
    (c : Color) (s : Square) → s < 64 → pawn_attacks_from c s ≡ pawn_attacks (from_square s) c
pawn_attacks_from_lem c s low = ground (
  arith,
  all_below_sound 64 (λ x. pawn_attacks_from c x == pawn_attacks (from_square x) c) s (pawn_table c)
      low,
)
