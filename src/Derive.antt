-- ===== src/Derive.antt =====
-- lib/derive.ts and the loading of entries: merging colors by hex, similar colors, peers of an era.
pub mod Defs
pub mod Merge
pub mod Similar
pub mod Peers
mod Tests
