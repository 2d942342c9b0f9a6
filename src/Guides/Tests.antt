-- ===== src/Guides/Tests.antt =====
-- Runs of the search in lib/setup-guides.ts, and its theorem at the guides themselves.
use desktopcolors.Common.{◌+◌, Option, none, some, ◌≡◌, codes, length, to_lower_case}
use desktopcolors.Guides.Defs.{GuideCat, desktop, mobile, guide_counts, filter_guides}
use desktopcolors.Guides.Data.{setup_guides}
use desktopcolors.Guides.Laws.{guide_counts-filter_guides}

guide_counts-filter_guides_example :
    ((guide_counts setup_guides (codes " KDE")).all
      ≡ length (filter_guides setup_guides (codes " KDE") none))
    × ((guide_counts setup_guides (codes " KDE")).desktop
        ≡ length (filter_guides setup_guides (codes " KDE") (some desktop)))
    × ((guide_counts setup_guides (codes " KDE")).mobile
        ≡ length (filter_guides setup_guides (codes " KDE") (some mobile)))
    × ((guide_counts setup_guides (codes " KDE")).all
        ≡ (guide_counts setup_guides (codes " KDE")).desktop
          + (guide_counts setup_guides (codes " KDE")).mobile)
    × ((cat : Option GuideCat)
        → filter_guides setup_guides (to_lower_case (codes " KDE")) cat
          ≡ filter_guides setup_guides (codes " KDE") cat)
guide_counts-filter_guides_example = guide_counts-filter_guides setup_guides (codes " KDE")
