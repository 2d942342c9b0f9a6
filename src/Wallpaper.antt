-- ===== src/Wallpaper.antt =====
-- lib/wallpaper.ts: the sizes of a download, its file name, and the size that is typed in.
pub mod Defs
pub mod Dimension
pub mod Slug
mod Tests
