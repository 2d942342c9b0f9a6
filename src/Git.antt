-- ===== src/Git.antt =====
-- lib/gitInfo.ts: what the footer says of the commit that was built.
pub mod Defs
mod Laws
mod Tests
