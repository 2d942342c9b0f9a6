-- ===== src/Wallpaper/Tests.antt =====
-- Runs of lib/wallpaper.ts, and its theorems at concrete texts.
use desktopcolors.Common.{◌≡◌, refl, codes, run}
use desktopcolors.Wallpaper.Defs.{wallpaper_filename}

file_name :
    wallpaper_filename (codes "win95") (codes " Teal (Default)!") (codes "#008080") 800 600
    ≡ codes "win95-teal-default-008080-800x600.png"
unfolding wallpaper_filename run
file_name = refl
