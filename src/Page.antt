-- ===== src/Page.antt =====
-- islands/OsDetail.tsx: the state of a system's page in the browser.
pub mod Defs
pub mod Loading
pub mod Machine
pub mod Scroll
pub mod Bounds
pub mod Details
pub mod Expanded
pub mod Reached
pub mod Liveness
pub mod Selection
mod Tests
mod Runs
