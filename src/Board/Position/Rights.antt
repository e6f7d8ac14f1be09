-- ===== src/Board/Position/Rights.antt =====
-- crates/rfish-engine/src/board/position.rs: `set_castling_right`.
use rfish.Prelude.{◌&&◌, ltb, if◌then◌else◌, Option, some, ◌>>=◌}
use rfish.Prelude.{bit_and, bit_or, update, modify}
use rfish.Board.Piece.{Color}
use rfish.Board.Square.{Square, make, rank, is_some}
use rfish.Board.Castling.{CastlingRights, king_side, queen_side, contains, union, without}
use rfish.Board.Bitboard.{not_u64, from_square as square_bb}
use rfish.Board.Attacks.{Sliders}
use rfish.Board.Placement.{king_square}
use rfish.Board.Position.{Position}

-- The mask of a rook that the right no longer names is cleared first.
unfoldable pub without_previous : Position → CastlingRights → Position
unfolding contains without
without_previous p cr =
    let previous = p.castling_rook_square cr in
    if is_some previous && contains p.st.castling_rights cr
    then record p {
      castling_rights_mask = modify p.castling_rights_mask previous (λ mask. without mask cr);
    }
    else p

-- A missing king panics.
unfoldable pub set_castling_right : Sliders → Color → Square → Position → Option Position
unfolding without_previous king_square king_side queen_side union make rank square_bb
set_castling_right sl c rook_from p = do
  ksq ← king_square p.placement c
  let toward_king = ltb ksq rook_from
  let cr = (if toward_king then king_side c else queen_side c)
  let q = without_previous p cr
  let king_to = make (if toward_king then 6 else 2) (rank ksq)
  let rook_to = make (if toward_king then 5 else 3) (rank ksq)
  let path =
      bit_or
        (bit_or (bit_or (sl.between_bb rook_from rook_to) (sl.between_bb ksq king_to))
          (square_bb king_to))
        (square_bb rook_to)
  some (record q {
    st = record q.st { castling_rights = union q.st.castling_rights cr };
    castling_rights_mask =
        modify (modify q.castling_rights_mask ksq (λ mask. union mask cr)) rook_from
          (λ mask. union mask cr);
    castling_rook_square = update q.castling_rook_square cr rook_from;
    castling_path =
        update q.castling_path cr
          (bit_and path (not_u64 (bit_or (square_bb ksq) (square_bb rook_from))));
  })
