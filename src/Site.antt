-- ===== src/Site.antt =====
-- lib/entries.ts, lib/loadCatalog.ts and lib/osDetail.ts: what a build loads once and keeps.
pub mod Defs
pub mod Laws
mod Tests
