-- ===== src/Explorer.antt =====
-- islands/Colors.tsx: the state of the color explorer, what it shows and its handlers.
pub mod Defs
pub mod Shown
pub mod Laws
pub mod Steps
pub mod Panel
pub mod Machine
pub mod Kept
pub mod Reached
pub mod Toggles
mod Tests
