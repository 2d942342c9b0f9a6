-- ===== src/Derive/Tests.antt =====
-- Runs of lib/derive.ts, and its theorems at two systems.
use mathlib.Core.List.{Perm}
use desktopcolors.Common.{
  List, map, some, ◌≡◌, refl, Text, codes, ltb, All, IsSorted, filter, Distinct, run,
}
use desktopcolors.Color.Micros.{micros, micros-IsOrdered}
use desktopcolors.Color.Hex.{run_hex}
use desktopcolors.Color.Spaces.{hex_to_oklab, oklab_distance}
use desktopcolors.Derive.Defs.{merge_colors_by_hex, year_range, similar_colors, EraPeer, era_peers}
use desktopcolors.Derive.Merge.{platforms_of, shipped, merge_colors_by_hex_lem}
use desktopcolors.Derive.Similar.{
  IsNumber, compared, foreign_shades, IsSimilarList, similar_colors-IsSimilarList,
}
use desktopcolors.Derive.Peers.{HasColors, is_contemporary, MirrorsAll, era_peers_total}
use desktopcolors.Samples.{win95_entry, two_entries}

years : year_range (shipped (codes "#008080") two_entries) ≡ codes "1992–1995"
unfolding year_range shipped run
years = refl

merge_colors_by_hex_lem_example :
    Distinct (map (λ m. m.hex) (merge_colors_by_hex micros two_entries))
    × ((k : Text) → platforms_of k (merge_colors_by_hex micros two_entries) ≡ shipped k two_entries)
merge_colors_by_hex_lem_example = merge_colors_by_hex_lem micros two_entries

finite :
    All
      (IsNumber micros)
      (map (compared micros (codes "#008080")) (foreign_shades (codes "win95") two_entries))
unfolding oklab_distance hex_to_oklab run_hex run
finite = (refl, (refl, tt))

similar_colors-IsSimilarList_example :
    IsSimilarList micros
      (map (compared micros (codes "#008080")) (foreign_shades (codes "win95") two_entries))
      24
      (similar_colors micros (codes "#008080") two_entries (codes "win95") 24)
similar_colors-IsSimilarList_example =
    similar_colors-IsSimilarList micros micros-IsOrdered (codes "#008080") two_entries
      (codes "win95") 24 finite

colored : All HasColors two_entries
colored = ((λ e. cc e), ((λ e. cc e), tt))

era_peers_total_example :
    (ps : List EraPeer) × (era_peers win95_entry two_entries 3 ≡ some ps)
    × IsSorted (λ a b. ltb a.year b.year) ps
    × ((made : List EraPeer) × Perm ps made
        × MirrorsAll made (filter (is_contemporary win95_entry 3) two_entries))
era_peers_total_example = era_peers_total win95_entry two_entries 3 colored
