-- ===== src/Prelude/Bits.antt =====
-- The bit operations as arithmetic, at every width.
mod Step
mod Digit
mod Fields
mod Shift
mod Xor
pub use Step.*
unfoldable pub use Digit.*
pub use Fields.*
pub use Shift.*
unfoldable pub use Xor.*
