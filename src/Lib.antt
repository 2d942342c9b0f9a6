-- ===== src/Lib.antt =====
-- Verification library of desktopcolors, a site that lists the solid background colors of desktop
-- systems. The program is a static site: at build time the entries in content/os are checked by the
-- schema, enriched with the scores of a counter service, and turned into a catalog, from which the
-- pages and the data of their interactive parts are made. The library models that data flow and the
-- logic of the interactive parts. Paths below are under the repository's directory src/.
--
-- Files and what they model:
--   Common            JavaScript's strings, arrays, sorting and objects, as the sources use them
--   SourceNote        lib/sourceNote.ts: `tokenizeSourceNote`, `markersOf`, `sourceNoteLinkErrors`, `parseSourceNote`
--   Content           content/config.ts and lib/desktopStyle.ts: the entry, and the checks of its schema
--   Color             lib/color.ts and lib/ral.ts: color spaces, inks, types, families, nearest colors, labels
--   Derive            lib/derive.ts: `mergeColorsByHex`, `similarColors`, `eraPeers`
--   Scores            lib/scores.ts: `parseScores`, `loadScores`, `colorScore`, `osScore`
--   Catalog           lib/catalog.ts and lib/links.ts: `buildCatalog`, `colorPath`
--   ColorCatalog      lib/colorCatalog.ts: search, counts, bands, ranking, systems by hex, filter by system
--   Detail            lib/detail.ts: `buildOsDetail`, `normalizeDetails`, `denormalizeDetails`, `bootstrapFromView`
--   Guides            lib/setup-guides.ts: the guides, `filterGuides`, `guideCounts`
--   Wallpaper         lib/wallpaper.ts: `wallpaperFilename`, `parseDimension`
--   Controls          islands/PlatformControls.tsx: the list that is shown, `selectSort`, `dirWord`
--   Explorer          islands/Colors.tsx: the state of the color explorer, its lists and handlers, the pages that
--                     using them comes to, and where the box of a color opens
--   Site              lib/entries.ts, lib/loadCatalog.ts, lib/osDetail.ts: what a build loads once and keeps
--   Page              islands/OsDetail.tsx: the state of a system's page, its handlers and effects, what is fetched,
--                     and where the list of colors is scrolled to
--   Chrome            lib/chromeSpec.ts: the schema of a preview, and the specs of the styles
--   Preview           islands/DesktopPreview.tsx: the desktop that is drawn on a color, as the markup it renders
--   Widgets           islands/ColorInfobox.tsx, DownloadSheet.tsx, Dropdown.tsx, FullscreenPreview.tsx,
--                     KnownUsesTimeline.tsx, MobileNav.tsx, SetupGuide.tsx and SourceNote.tsx: their states and
--                     handlers, what they compute, and of most the markup
--   Track             lib/track.ts: the beacons that count copies, downloads and visits
--   Git               lib/gitInfo.ts: what a footer says of the commit and the repository
--
-- How the parts interact: Content gives the entries of Derive; Catalog builds its views from Derive, Color,
-- Scores and SourceNote; ColorCatalog and Detail read the catalog; Detail packs the systems of ColorCatalog
-- for the browser; Explorer runs ColorCatalog on the state of its page; Page fetches what Detail packs, sends the
-- events of Track, and hands its handlers to the parts of Widgets, which draw a Preview.
-- A function of a source has the source's name in snake case. What throws in the source returns `none` or
-- `throws` here. A `Map` and an object that is used as one are association lists in the order of
-- insertion, a `Set` that is only asked for membership is a list.
--
-- Parameters: the IEEE numbers are a record `Floats` of operations, with the laws that a theorem needs
-- as its hypothesis `IsOrdered`; the palettes of lib/ral.ts, `localeCompare`, the URL parser, the JSON parser and
-- the file system are arguments. Micros gives a concrete stand-in for the numbers.
--
-- Bounds: texts are lists of UTF-16 code units; `toLowerCase` covers ASCII and Latin-1, which the content uses;
-- `parseInt` is exact up to thirteen digits, and a color has two; years and scores are natural
-- numbers. The names that every object inherits are modelled where a free text is looked up
-- in a plain object: the labels of source notes and the slugs of the scores. A hex begins with `#` and is
-- none. Loops are structural; `show` runs on n + 1 rounds, one for each decimal digit at most.
--
-- The browser is a parameter where its answers matter: whether a canvas, a beacon or a fetch works, whether the
-- address may be replaced. Effects of a component run in the model right after the change that causes them.
-- Markup is a list of tags with their attributes, without keys and handlers.
--
-- Not modelled: the markup of islands/OsDetail.tsx, Colors.tsx, PlatformControls.tsx, SetupGuide.tsx,
-- DownloadSheet.tsx, Dropdown.tsx and DetailSkeleton.tsx; lib/useIsNarrow.ts; the counter service in Go, the
-- deployment scripts and the tests.
mod Common
mod Samples
pub mod SourceNote
pub mod Content
pub mod Color
pub mod Derive
pub mod Scores
pub mod Catalog
pub mod ColorCatalog
pub mod Detail
pub mod Guides
pub mod Wallpaper
pub mod Controls
pub mod Chrome
pub mod Explorer
pub mod Page
pub mod Track
pub mod Widgets
pub mod Preview
pub mod Git
pub mod Site
