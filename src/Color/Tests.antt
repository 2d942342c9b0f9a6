-- ===== src/Color/Tests.antt =====
-- Runs of lib/color.ts, a stand-in for its numbers, and its theorems at concrete colors.
use desktopcolors.Common.{
  ℕ, ◌+◌, ◌*◌, ◌≤◌, ◌<◌, List, [], ◌∷◌, true, ◌≡◌, ◌⊎◌, refl, arith, codes, run, All, some,
}
use desktopcolors.Color.Hex.{hex_to_rgb, run_hex}
use desktopcolors.Color.Spaces.{RalColor, closest_ral, oklab_distance, hex_to_oklab}
use desktopcolors.Color.Nearest.{distance, IsFirstNearest, closest_ral-IsFirstNearest}
use desktopcolors.Color.Micros.{micros, micros-IsOrdered}
use desktopcolors.Color.Score.{format_score, tenths_label, format_score_nearest, run_score}

read_hex : (hex_to_rgb (codes "#3A6ea5") ≡ (58, 110, 165)) × (hex_to_rgb (codes "#zz") ≡ (0, 0, 0))
unfolding run_hex run
read_hex = (refl, refl)

-- `(1050 / 1000).toFixed(1)` and `(1150 / 1000).toFixed(1)` are both 1.1: the double nearest to 1.15
-- lies below it
labels :
    (format_score 999 ≡ codes "< 1k")
    × (format_score 1000 ≡ codes "1k")
    × (format_score 1050 ≡ codes "1.1k")
    × (format_score 1150 ≡ codes "1.1k")
    × (format_score 12345 ≡ codes "12.3k")
    × (format_score 1999999 ≡ codes "2000k")
unfolding run_score run
labels = (refl, refl, refl, refl, refl, refl)

format_score_nearest_example :
    ((1150 < 1000) × (format_score 1150 ≡ codes "< 1k"))
    ⊎ ((n : ℕ) × (1000 ≤ 1150)
        × (format_score 1150 ≡ tenths_label n)
        × (100 * n ≤ 1150 + 50)
        × (1150 ≤ 100 * n + 50))
format_score_nearest_example = format_score_nearest 1150 (omega arith)

abbrev teal : RalColor
teal = record { code = codes "A"; name = codes "teal"; hex = codes "#008080" }

abbrev grey : RalColor
grey = record { code = codes "B"; name = codes "grey"; hex = codes "#808080" }

abbrev red : RalColor
red = record { code = codes "C"; name = codes "red"; hex = codes "#ff0000" }

abbrev palette : List RalColor
palette = red ∷ grey ∷ teal ∷ grey ∷ []

nearest_run : closest_ral micros (codes "#108080") palette ≡ some teal
unfolding closest_ral oklab_distance hex_to_oklab run_hex run
nearest_run = refl

finite : All (λ x. micros.is_finite (distance micros (codes "#108080") x) ≡ true) palette
unfolding oklab_distance hex_to_oklab run_hex run
finite = (refl, (refl, (refl, (refl, tt))))

closest_ral-IsFirstNearest_example :
    (best : RalColor) × (closest_ral micros (codes "#108080") palette ≡ some best)
    × IsFirstNearest micros (distance micros (codes "#108080")) palette best
closest_ral-IsFirstNearest_example =
    closest_ral-IsFirstNearest micros micros-IsOrdered (codes "#108080") red
      (grey ∷ teal ∷ grey ∷ []) finite
