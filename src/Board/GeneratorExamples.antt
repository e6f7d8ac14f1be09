-- ===== src/Board/GeneratorExamples.antt =====
-- The theorems of the move generator, of the legality test and of the exchange at a small position.
use rfish.Prelude.{ℕ, ◌+◌, ◌≡◌, refl, arith, Bool, false, ◌==◌, some}
use rfish.Prelude.{[]}
use rfish.Prelude.Int.{pos}
use rfish.Board.Piece as Piece
use rfish.Board.Piece.{Color, white, black, rook, pawn, opponent, piece_type}
use rfish.Board.Square.{no_square}
use rfish.Board.Move.{new, from_square, to_square}
use rfish.Board.Bitboard.{Bitboard, not_u64}
use rfish.Board.Attacks.{walked, piece_attacks, aligned}
use rfish.Board.Placement.{Placement, blank, put_piece, colored, pieces_of, occupied, king_square}
use rfish.Board.Position.Threats.{blockers_for_king}
use rfish.Board.Placement.Contract.{IsPlacement, blank-IsPlacement, put_piece-IsPlacement}
use rfish.Board.Position.{Position, blank_state}
use rfish.Board.Position.See.{see_ge}
use rfish.Board.Position.See.Ends.{see_ge-Answers}
use rfish.Board.MoveGen.{generate_for}
use rfish.Board.MoveGen.Pieces.{times, once, may_step, times-generate_for}
use rfish.Board.Legality.{legal}
use rfish.Board.Legality.Agreement.{legal-generate_for}

-- White: king e1, rook h1. Black: king e8, rook h8.
abbrev kings : Placement
kings = put_piece 14 60 (put_piece 6 4 blank)

abbrev four_pieces : Placement
four_pieces = put_piece 12 63 (put_piece 4 7 kings)

four_pieces-IsPlacement : IsPlacement four_pieces
unfolding put_piece
four_pieces-IsPlacement =
    put_piece-IsPlacement (put_piece 4 7 kings) 12 63
      (put_piece-IsPlacement kings 4 7
        (put_piece-IsPlacement (put_piece 6 4 blank) 14 60
          (put_piece-IsPlacement blank 6 4 blank-IsPlacement refl (omega arith) refl) refl
          (omega arith) refl)
        refl (omega arith) refl)
      refl (omega arith) refl

abbrev endgame : Position
endgame = record {
  placement = four_pieces;
  castling_rights_mask = λ sq. 0;
  castling_rook_square = λ cr. no_square;
  castling_path = λ cr. 0;
  st = blank_state;
  prev = [];
  game_ply = 0;
  side_to_move = white;
  chess960 = false;
}

see_ge-Answers_example : (answer : Bool) × (see_ge walked endgame (new 7 63) (pos 0) ≡ some answer)
unfolding new from_square to_square put_piece piece_type
see_ge-Answers_example =
    see_ge-Answers walked endgame (new 7 63) (pos 0) (omega arith) (omega arith) (omega arith)

times-generate_for_example :
    times
      (new 7 5)
      (generate_for walked 4 (colored four_pieces white) 0 96 false (λ f. walked.rook f 144))
    ≡ once (may_step walked 4 (colored four_pieces white) 0 96 false (λ f. walked.rook f 144) 7 5)
unfolding put_piece
times-generate_for_example =
    times-generate_for walked 4 (colored four_pieces white) 0 96 false (λ f. walked.rook f 144) 7 5
      (omega arith) (omega arith) (omega arith) (omega arith) (omega arith)

abbrev listed : Bitboard → ℕ
unfolding new
listed target = times (new 7 5) (
    generate_for walked 4 (pieces_of four_pieces white rook) 0 target false
      (λ f. walked.rook f (occupied four_pieces)))

legal-generate_for_example :
    legal walked endgame (new 7 5)
    ≡ some (
        (listed (colored four_pieces (opponent white)) + listed (not_u64 (occupied four_pieces)))
        == 1)
unfolding put_piece piece_type Piece.new piece_attacks king_square blockers_for_king listed times
    walked aligned
legal-generate_for_example =
    legal-generate_for walked endgame four_pieces-IsPlacement rook 7 5 4 false
      (λ f. walked.rook f (occupied four_pieces)) (omega arith) (omega arith) (λ e. omega arith)
      refl refl refl refl refl refl (omega arith) refl
