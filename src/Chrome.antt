-- ===== src/Chrome.antt =====
-- lib/chromeSpec.ts: the parts that a desktop preview is drawn from, for each style.
pub mod Defs
pub mod Specs
