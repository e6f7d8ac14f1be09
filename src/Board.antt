-- ===== src/Board.antt =====
-- The board's value domain.
pub mod Piece
pub mod Square
pub mod Castling
pub mod Move
pub mod Value
pub mod Bitboard
pub mod Attacks
pub mod Zobrist
pub mod Cuckoo
mod GeneratorExamples
mod NotationExamples
mod Examples
pub mod Placement
pub mod Position
pub mod MoveGen
pub mod Legality
pub mod Notation
mod PositionExamples
