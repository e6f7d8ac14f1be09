-- ===== src/Board/Attacks.antt =====
-- crates/rfish-engine/src/board/attacks.rs: the slider attacks and the rays that the position reads.
-- The magic tables answer for a square and an occupancy what the walk along the rays answers; `Sliders`
-- is that interface, and `walked` fills it by the walk and the ray tables' definitions.
use rfish.Prelude.{bit_or, ◌+◌, ◌/◌, ◌%◌}
use rfish.Board.Piece.{Color, white, PieceType, no_type, pawn, knight, bishop, rook, queen, king}
use rfish.Board.Bitboard.Steps.{pawn_attacks_from, knight_attacks, king_attacks}
use rfish.Prelude.{
  ℕ, zero, suc, Bool, ◌==◌, if◌then◌else◌, bit_and, Option, none, some, List, [], ◌∷◌,
}
use rfish.Board.Square.{
  Square, Direction, north, east, south, west, north_east, south_east, south_west,
}
use rfish.Board.Square.{north_west, try_shift, distance}
use rfish.Board.Bitboard.{Bitboard, empty, contains, set, from_square}

pub record Sliders : Type 0 where
  pub rook : Square → Bitboard → Bitboard
  pub bishop : Square → Bitboard → Bitboard
  pub between_bb : Square → Square → Bitboard
  pub line_bb : Square → Square → Bitboard

-- A step that stays on the board and does not wrap round a file edge.
abbrev step_on : Square → Direction → Option Square
step_on s d = elim (try_shift s d) [
  | none ↦ none
  | some next ↦ if distance next s == 1 then some next else none
]

-- One ray: on until an occupied square, which is included. No ray has more than seven squares.
unfoldable pub walk : ℕ → Square → Direction → Bitboard → Bitboard → Bitboard
unfolding try_shift distance contains set
walk zero s d occupied attacks = attacks
walk (suc fuel) s d occupied attacks = elim (step_on s d) [
  | none ↦ attacks
  | some next ↦
      if contains occupied next
      then set attacks next
      else walk fuel next d occupied (set attacks next)
]

walk_all : List Direction → Square → Bitboard → Bitboard → Bitboard
unfolding walk
walk_all [] sq occupied attacks = attacks
walk_all (d ∷ ds) sq occupied attacks = walk_all ds sq occupied (walk 7 sq d occupied attacks)

-- `sliding_attacks`, with the directions that its parameter chooses.
unfoldable pub sliding_attacks : Bool → Square → Bitboard → Bitboard
unfolding walk_all
sliding_attacks is_rook sq occupied =
    walk_all
      (if is_rook
        then north ∷ east ∷ south ∷ west ∷ []
        else north_east ∷ south_east ∷ south_west ∷ north_west ∷ [])
      sq occupied empty

-- One round of `RayTables::build` for the pair, whose earlier entry is the last argument.
unfoldable pub between_round : Bool → Square → Square → Bitboard → Bitboard
unfolding sliding_attacks contains from_square
between_round is_rook s1 s2 t =
    if contains (sliding_attacks is_rook s1 empty) s2
    then bit_and (sliding_attacks is_rook s1 (from_square s2))
        (sliding_attacks is_rook s2 (from_square s1))
    else t

unfoldable pub line_round : Bool → Square → Square → Bitboard → Bitboard
unfolding sliding_attacks contains set
line_round is_rook s1 s2 t =
    if contains (sliding_attacks is_rook s1 empty) s2
    then set
        (set (bit_and (sliding_attacks is_rook s1 empty) (sliding_attacks is_rook s2 empty)) s1) s2
    else t

unfoldable pub walked : Sliders
unfolding sliding_attacks between_round line_round set
walked = record {
  rook = sliding_attacks Bool.true;
  bishop = sliding_attacks Bool.false;
  between_bb = λ a b. set (between_round Bool.false a b (between_round Bool.true a b empty)) b;
  line_bb = λ a b. line_round Bool.false a b (line_round Bool.true a b empty);
}

unfoldable pub queen_attacks : Sliders → Square → Bitboard → Bitboard
queen_attacks sl sq occ = bit_or (sl.rook sq occ) (sl.bishop sq occ)

-- No type of piece panics.
unfoldable pub attacks_from : Sliders → Color → PieceType → Square → Bitboard → Option Bitboard
unfolding pawn_attacks_from knight_attacks king_attacks queen_attacks
attacks_from sl c pawn sq occ = some (pawn_attacks_from c sq)
attacks_from sl c knight sq occ = some (knight_attacks sq)
attacks_from sl c bishop sq occ = some (sl.bishop sq occ)
attacks_from sl c rook sq occ = some (sl.rook sq occ)
attacks_from sl c queen sq occ = some (queen_attacks sl sq occ)
attacks_from sl c king sq occ = some (king_attacks sq)
attacks_from sl c no_type sq occ = none

-- Without its `debug_assert`.
unfoldable pub piece_attacks : Sliders → PieceType → Square → Bitboard → Option Bitboard
unfolding attacks_from
piece_attacks sl pt sq occ = attacks_from sl white pt sq occ

-- `DIAGONALS`: the squares below `n` whose file and rank differ by, or add up to, the same.
diagonal_loop : ℕ → Square → Bitboard
diagonal_loop zero s = empty
diagonal_loop (suc n) s =
    let t = diagonal_loop n s in if n / 8 + s % 8 == s / 8 + n % 8 then set t n else t

antidiagonal_loop : ℕ → Square → Bitboard
antidiagonal_loop zero s = empty
antidiagonal_loop (suc n) s =
    let t = antidiagonal_loop n s in if n / 8 + n % 8 == s / 8 + s % 8 then set t n else t

unfoldable pub diag_bb : Square → Bitboard
unfolding diagonal_loop set
diag_bb s = diagonal_loop 64 s

unfoldable pub antidiag_bb : Square → Bitboard
unfolding antidiagonal_loop set
antidiag_bb s = antidiagonal_loop 64 s

unfoldable pub aligned : Sliders → Square → Square → Square → Bool
unfolding contains
aligned sl a b c = contains (sl.line_bb a b) c
