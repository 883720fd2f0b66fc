-- ===== src/Common.antt =====
-- The names that the other modules share.
mod Text
mod Sets
mod Outcome
pub mod Dict
pub mod Sort
pub mod Table
unfoldable pub use Text.*
unfoldable pub use Sets.*
pub use Outcome.*
