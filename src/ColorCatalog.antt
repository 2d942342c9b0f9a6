-- ===== src/ColorCatalog.antt =====
-- lib/colorCatalog.ts: the color explorer's search, facets, bands, ranking and filter by system.
pub mod Defs
pub mod Platforms
pub mod Universe
pub mod Uses
pub mod Order
pub mod Query
pub mod Years
pub mod Bands
pub mod Ranking
pub mod Filters
pub mod Counts
mod Tests
