-- ===== src/Content.antt =====
-- The content schema of content/config.ts: the shape of an entry, and the checks that the schema
-- makes of it. Defaults are filled in: the records are the schema's output.
mod Schema
pub mod Accepted
mod Tests
pub use Schema.*
