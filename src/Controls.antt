-- ===== src/Controls.antt =====
-- islands/PlatformControls.tsx: the search and the sorting of the platforms page.
pub mod Defs
mod Search
pub mod Laws
mod Tests
