-- ===== src/Catalog/Tests.antt =====
-- The theorem on lib/catalog.ts at two systems.
use desktopcolors.Common.{◌≡◌, ◌⊎◌, Text, All}
use desktopcolors.Color.Micros.{micros}
use desktopcolors.Scores.{no_scores}
use desktopcolors.Catalog.Defs.{Catalog, returns, throws, build_catalog}
use desktopcolors.Catalog.Laws.{IsWhole, ShowsAll, build_catalog_lem}
use desktopcolors.Samples.{two_entries}

build_catalog_lem_example :
    ((All (IsWhole two_entries) two_entries)
      × ((catalog : Catalog) × (build_catalog micros two_entries no_scores ≡ returns catalog)
          × ShowsAll two_entries two_entries catalog.os_list))
    ⊎ ((¬ (All (IsWhole two_entries) two_entries))
        × ((message : Text) × (build_catalog micros two_entries no_scores ≡ throws message)))
build_catalog_lem_example = build_catalog_lem micros two_entries no_scores
