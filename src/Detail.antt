-- ===== src/Detail.antt =====
-- lib/detail.ts: the page of a system, and the form in which it goes to the browser.
pub mod Defs
pub mod Build
pub mod RoundTrip
pub mod Select
pub mod Laws
pub mod Total
pub mod Samples
mod Tests
