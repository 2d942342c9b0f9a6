-- ===== src/Detail/Tests.antt =====
-- The theorems on lib/detail.ts at two systems.
use desktopcolors.Common.{ℕ, List, [], ◌∷◌, Bool, false, ◌≡◌, refl, Text, codes, inl, inr, run}
use desktopcolors.Color.Micros.{micros}
use desktopcolors.Scores.{no_scores}
use desktopcolors.Catalog.Defs.{Outcome, throws, Catalog, returns, build_catalog}
use desktopcolors.Derive.Defs.{SimilarColor, default_color}
use desktopcolors.Detail.Defs.{OsDetailView}
use desktopcolors.Detail.Build.{build_os_detail}
use desktopcolors.Detail.Total.{build_os_detail_total}
use desktopcolors.Samples.{two_entries}
use desktopcolors.Detail.Samples.{ral}

abbrev near : Text → Text → SimilarColor micros
near hex os = record {
  hex = hex;
  name = codes "Teal";
  os_slug = os;
  os_name = os;
  distance = 0;
  match = 99;
}

abbrev nears : List (SimilarColor micros)
nears = near (codes "#008081") (codes "a") ∷ near (codes "#008081") (codes "b") ∷ []

by_name : Text → Text → Bool
by_name a b = false

abbrev catalog_of : Outcome Catalog → Catalog
catalog_of (returns c) = c
catalog_of (throws e) = record { os_list = []; colors = [] }

catalog : Catalog
unfolding build_catalog run
catalog = catalog_of (build_catalog micros two_entries no_scores)

built : build_catalog micros two_entries no_scores ≡ returns catalog
unfolding catalog default_color
built = refl

build_os_detail_total_example :
    (view : OsDetailView ℕ) × (build_os_detail micros
        (ral ∷ [])
        (ral ∷ [])
        by_name
        two_entries
        catalog
        (codes "win95")
      ≡ returns view)
    × (view.os.slug ≡ codes "win95")
unfolding run
build_os_detail_total_example =
    build_os_detail_total micros by_name two_entries no_scores ral ral [] [] catalog built
      (codes "win95") (inr (inl refl))
