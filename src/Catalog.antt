-- ===== src/Catalog.antt =====
-- lib/catalog.ts: the view of every platform and color that the pages are built from.
pub mod Defs
pub mod Laws
mod Tests
pub use Defs.*
