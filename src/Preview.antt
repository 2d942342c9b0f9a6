-- ===== src/Preview.antt =====
-- islands/DesktopPreview.tsx: the desktop that is drawn on a color.
pub mod Html
pub mod Surfaces
pub mod Icons
pub mod Windows
pub mod GadgetWindows
pub mod UnixWindows
pub mod Bars
pub mod Panels
pub mod Bleskos
pub mod Blackbox
pub mod Basic
pub mod ModernWindows
pub mod Modern
pub mod Scene
pub mod Laws
mod Tests
