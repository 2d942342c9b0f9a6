-- ===== src/Widgets.antt =====
-- The smaller parts of the pages: islands/ColorInfobox.tsx, islands/DownloadSheet.tsx, islands/Dropdown.tsx,
-- islands/FullscreenPreview.tsx, islands/KnownUsesTimeline.tsx, islands/MobileNav.tsx,
-- islands/SetupGuide.tsx and islands/SourceNote.tsx.
pub mod Copied
pub mod Menu
pub mod Guide
pub mod Keys
pub mod Infobox
pub mod Timeline
pub mod TimelineView
pub mod Anchors
pub mod Links
pub mod Note
pub mod InfoboxView
pub mod Nav
pub mod Fullscreen
pub mod Download
mod Tests
mod Views
