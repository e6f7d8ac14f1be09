-- ===== src/Board/Examples.antt =====
-- The theorems of the board's types at concrete squares, pieces, moves and sets.
use rfish.Prelude.{ℕ, ◌+◌, ◌^◌, ◌<◌, ◌≡◌, arith, ◌==◌}
use rfish.Board.Piece.{queen}
use rfish.Board.Square.{Square, north_west, distance}
use rfish.Board.Move.{typed, promotion, from_square, to_square, move_type, promotion_type}
use rfish.Board.Move.Encoding.{typed_fields}
use rfish.Board.Bitboard.{squares, contains, set, clear, toggle}
use rfish.Board.Bitboard as Bitboard
use rfish.Board.Bitboard.Steps.{king_attacks, knight_attacks}
use rfish.Board.Bitboard.Steps.Leapers.{is_knight_move, leaper_attacks}
use rfish.Board.Bitboard.Pop.{ascending, squares-ascending}
use rfish.Board.Bitboard.Geometry.{at_origin, origin, contains-shift}

abbrev a1 : Square
a1 = 0

abbrev h8 : Square
h8 = 63

-- The characters of e4.
typed_fields_example :
    let m = typed promotion 52 61 queen in
    (m < 65536)
    × (from_square m ≡ 52)
    × (to_square m ≡ 61)
    × (move_type m ≡ promotion)
    × (promotion_type m ≡ queen)
typed_fields_example = typed_fields promotion 52 61 queen (omega arith) (omega arith) (omega arith)

abbrev example_key : ℕ
example_key = 0xfedcba9876543210

-- The squares b1, d1 and h8.
abbrev three_squares : ℕ
three_squares = 2 + 8 + 2 ^ 63

squares-ascending_example : squares three_squares ≡ ascending 64 0 (contains three_squares)
squares-ascending_example = squares-ascending three_squares (omega arith)

contains-shift_example :
    contains (Bitboard.shift three_squares north_west) 10
    ≡ at_origin three_squares (origin north_west 10)
contains-shift_example = contains-shift three_squares north_west 10 (omega arith) (omega arith)

leaper_attacks_example :
    (contains (king_attacks 7) 8 ≡ (distance 7 8 == 1))
    × (contains (knight_attacks 7) 8 ≡ is_knight_move 7 8)
leaper_attacks_example = leaper_attacks 7 8 (omega arith) (omega arith)
