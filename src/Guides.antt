-- ===== src/Guides.antt =====
-- lib/setup-guides.ts: the guides for setting a solid color, and their search.
pub mod Defs
pub mod Data
pub mod Laws
mod Tests
