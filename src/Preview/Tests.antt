-- ===== src/Preview/Tests.antt =====
-- The theorems on islands/DesktopPreview.tsx at one color, with the stand-in for the numbers.
use desktopcolors.Common.{none, some, ◌≡◌, ◌&&◌, if◌then◌else◌, refl, codes, run}
use desktopcolors.Content.{c64, blackbox}
use desktopcolors.Color.Micros.{micros}
use desktopcolors.Color.Hex.{run_hex}
use desktopcolors.Color.Spaces.{contrast, contrast_ratio, relative_luminance}
use desktopcolors.Chrome.Specs.{chrome_specs}
use desktopcolors.Preview.Scene.{preview_ink, desktop_preview}
use desktopcolors.Preview.Laws.{
  test_ids, scene_ids, stands_out, is_c64, text_colors, five, desktop_preview-test_ids,
  desktop_preview-accent,
}

desktop_preview-test_ids_example :
    test_ids (desktop_preview micros (codes "#008080") (codes "#ffffff") blackbox none)
    ≡ scene_ids (chrome_specs blackbox)
desktop_preview-test_ids_example =
    desktop_preview-test_ids micros (codes "#008080") (codes "#ffffff") blackbox none

-- an accent that is the color itself
desktop_preview-accent_example :
    (desktop_preview micros (codes "#352879") (codes "#ffffff") c64 (some (codes "#352879")) ≡ (
      if is_c64 c64 && stands_out micros (codes "#352879") (codes "#352879")
      then desktop_preview micros (codes "#352879") (codes "#ffffff") c64 (some (codes "#352879"))
      else desktop_preview micros (codes "#352879") (codes "#ffffff") c64 none))
    × (text_colors
          (desktop_preview micros (codes "#352879") (codes "#ffffff") c64 (some (codes "#352879")))
        ≡ five (
            if stands_out micros (codes "#352879") (codes "#352879")
            then codes "#352879"
            else codes "#ffffff"))
desktop_preview-accent_example =
    desktop_preview-accent micros (codes "#352879") (codes "#ffffff") (codes "#352879") c64

-- such an accent does not show
hidden_accent :
    desktop_preview micros (codes "#352879") (codes "#ffffff") c64 (some (codes "#352879"))
    ≡ desktop_preview micros (codes "#352879") (codes "#ffffff") c64 none
unfolding desktop_preview preview_ink contrast contrast_ratio relative_luminance run_hex run
hidden_accent = refl
