-- ===== src/Board/Square/Laws.antt =====
-- Coordinates, mirrors, steps and distances of squares.
use rfish.Prelude.{ℕ, ◌+◌, ◌-◌, ◌%◌, ◌≤◌, ◌<◌, ◌≡◌, refl, ◌↔◌, arith}
use rfish.Prelude.{Bool, true, ◌==◌, ◌&&◌, some, all_below, all_below_sound}
use rfish.Prelude.Bits.{bit_and_mask}
use rfish.Board.Piece.{Color, white, black}
use rfish.Board.Square.{Square, Direction, north, east, south, west, north_east, south_east}
use rfish.Board.Square.{south_west, north_west, make, file, rank, flip_rank, flip_file, relative}
use rfish.Board.Square.{relative_rank, distance, shift, try_shift, from_coords, display}

pub file_lem : (sq : Square) → file sq ≡ sq % 8
unfolding file
file_lem sq = bit_and_mask 3 sq

-- Coordinates on the board give a square, which gives them back.
pub make_fields :
    (f r : ℕ) → f < 8 → r < 8 → (make f r < 64) × (file (make f r) ≡ f) × (rank (make f r) ≡ r)
unfolding make rank
make_fields f r hf hr = omega (arith, file_lem (make f r))

-- A square is the one at its coordinates, which lie on the board.
pub make-file-rank :
    (sq : Square) → sq < 64 → (make (file sq) (rank sq) ≡ sq) × (file sq < 8) × (rank sq < 8)
unfolding make rank
make-file-rank sq h = omega (arith, file_lem sq)

-- The two mirrors, on every square.
mirrored : Square → Bool
mirrored sq =
    (file (flip_rank sq) == file sq)
    && (rank (flip_rank sq) == 7 - rank sq)
    && (file (flip_file sq) == 7 - file sq)
    && (rank (flip_file sq) == rank sq)

mirror_table : all_below 64 mirrored ≡ true
unfolding all_below mirrored file rank flip_rank flip_file
mirror_table = refl

-- `flip_rank` mirrors the rank and keeps the file, `flip_file` the other way round.
pub flip_fields :
    (sq : Square)
    → sq < 64
    → (file (flip_rank sq) ≡ file sq)
      × (rank (flip_rank sq) ≡ 7 - rank sq)
      × (file (flip_file sq) ≡ 7 - file sq)
      × (rank (flip_file sq) ≡ rank sq)
unfolding mirrored
flip_fields sq h = ground (arith, all_below_sound 64 mirrored sq mirror_table h)

seen_from : Color → Square → Bool
seen_from c sq =
    (file (relative sq c) == file sq)
    && (rank (relative sq c) == relative_rank sq c)
    && (relative (relative sq c) c == sq)

seen_from_table : (c : Color) → all_below 64 (seen_from c) ≡ true
unfolding all_below seen_from file rank relative relative_rank
seen_from_table white = refl
seen_from_table black = refl

-- Seen from a colour's own side a square keeps its file, has the colour's relative rank, and is
-- the square itself when seen twice.
pub relative_fields :
    (sq : Square) (c : Color)
    → sq < 64
    → (file (relative sq c) ≡ file sq)
      × (rank (relative sq c) ≡ relative_rank sq c)
      × (relative (relative sq c) c ≡ sq)
unfolding seen_from
relative_fields sq c h = ground (arith, all_below_sound 64 (seen_from c) sq (seen_from_table c) h)

-- The distance of squares on the board is a metric: it is zero only between equal squares, symmetric,
-- and obeys the triangle inequality.
pub distance_metric :
    (a b c : Square)
    → a < 64
    → b < 64
    → ((distance a b ≡ 0) ↔ (a ≡ b))
      × (distance a b ≡ distance b a)
      × (distance a c ≤ distance a b + distance b c)
unfolding distance rank
distance_metric a b c ha hb =
    ((ground (arith, file_lem a, file_lem b), ground arith), ground arith, ground arith)

abbrev pub opposite : Direction → Direction
opposite north = south
opposite east = west
opposite south = north
opposite west = east
opposite north_east = south_west
opposite south_east = north_west
opposite south_west = north_east
opposite north_west = south_east

-- A step that `try_shift` takes stays on the board, is the step of `shift`, and is undone by the
-- opposite step.
pub try_shift-opposite :
    (sq s : Square) (d : Direction)
    → sq < 64
    → try_shift sq d ≡ some s
    → (s < 64) × (shift sq d ≡ s) × (try_shift s (opposite d) ≡ some sq)
unfolding try_shift shift
try_shift-opposite sq s north h e = ground arith
try_shift-opposite sq s _ h e = ground arith

-- Two characters read as a square exactly when they are the characters that the square displays.
pub from_coords-display :
    (f r : ℕ) (sq : Square) → (from_coords f r ≡ some sq) ↔ ((sq < 64) × (display sq ≡ (f, r)))
unfolding from_coords display
from_coords-display f r sq =
    ((λ e. ground (arith, file_lem sq)), (λ e. ground (arith, file_lem sq)))
