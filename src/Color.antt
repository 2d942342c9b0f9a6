-- ===== src/Color.antt =====
-- lib/color.ts: reading a hex, the color spaces, the perceptual types, the closest RAL color and the
-- label of a score. The IEEE operations are those of `Color.Floats`.
pub mod Floats
pub mod Hex
pub mod Spaces
pub mod Nearest
pub mod Types
pub mod Score
pub mod Micros
mod Tests
