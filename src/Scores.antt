-- ===== src/Scores.antt =====
-- lib/scores.ts: reading the popularity scores, with its fallbacks.
pub mod Defs
pub mod Laws
mod Tests
pub use Defs.*
