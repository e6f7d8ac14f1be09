-- ===== src/Board/Zobrist.antt =====
-- crates/rfish-engine/src/board/zobrist.rs: the tables of random words behind a position's keys, drawn
-- by an xorshift generator in a fixed order. `Tables` is the interface that the position reads.
use rfish.Prelude.{
  ℕ, zero, suc, ◌+◌, ◌-◌, ◌*◌, ◌/◌, ◌%◌, ◌^◌, Bool, ◌&&◌, ◌||◌, leb, ltb, ◌==◌, not, if◌then◌else◌,
  bit_xor,
}
use rfish.Prelude.{List, [], ◌∷◌, get_or}
use rfish.Board.Piece.{Piece}
use rfish.Board.Square.{Square, File}
use rfish.Board.Castling.{CastlingRights}

abbrev pub Key : Type 0
Key = ℕ

pub record Tables : Type 0 where
  pub psq : Piece → Square → Key
  pub en_passant : File → Key
  pub castling : CastlingRights → Key
  pub side : Key
  pub no_pawns : Key

unfoldable pub next_key : ℕ → ℕ × Key
next_key s =
    let s1 = bit_xor s (s / 2 ^ 12) in
    let s2 = bit_xor s1 (s1 * 2 ^ 25 % 2 ^ 64) in
    let s3 = bit_xor s2 (s2 / 2 ^ 27) in (s3, s3 * 2685821657736338717 % 2 ^ 64)

-- A run of draws, with the state that it leaves.
unfoldable pub draw : ℕ → ℕ → ℕ × List Key
unfolding next_key
draw zero s = (s, [])
draw (suc n) s = let (s1, k) = next_key s in let (s2, ks) = draw n s1 in (s2, k ∷ ks)

-- The twelve real pieces in the order of their rows; the encoding's gaps have none.
abbrev row_of : Piece → ℕ
row_of pc = if ltb pc 8 then pc - 1 else pc - 3

abbrev pub is_real : Piece → Bool
is_real pc = (leb 1 pc && leb pc 6) || (leb 9 pc && leb pc 14)

-- The pawns' last ranks are zeroed.
abbrev zeroed : Piece → Square → Bool
zeroed pc sq = (pc == 1 && leb 56 sq) || (pc == 9 && ltb sq 8)

unfoldable pub build : Tables
unfolding draw
build =
    let (s1, squares) = draw (12 * 64) 1070372 in
    let (s2, files) = draw 8 s1 in
    let (s3, rights) = draw 16 s2 in
    let (s4, rest) = draw 2 s3 in
    record {
      psq = λ pc sq.
          if is_real pc && not (zeroed pc sq) then get_or squares (row_of pc * 64 + sq) 0 else 0;
      en_passant = λ f. get_or files f 0;
      castling = λ cr. get_or rights cr 0;
      side = get_or rest 0 0;
      no_pawns = get_or rest 1 0;
    }
