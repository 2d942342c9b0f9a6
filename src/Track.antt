-- ===== src/Track.antt =====
-- lib/track.ts: the beacons of the site.
pub mod Defs
pub mod Laws
mod Tests
