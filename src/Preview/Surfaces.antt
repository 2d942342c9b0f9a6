-- ===== src/Preview/Surfaces.antt =====
-- The colors and lengths that the scenes of islands/DesktopPreview.tsx are drawn with.
use Prim.Native.String.{String}
use desktopcolors.Common.{ℕ, ◌++◌, Text, codes, text_eq, show, if◌then◌else◌}

-- `light` is the dark ink, for a light wallpaper
pub record ModernSurfaces : Type 0 where
  pub ink : Text
  pub panel : Text
  pub win : Text
  pub border : Text

unfoldable pub surfaces : Text → ModernSurfaces
surfaces on_color =
    let light = text_eq on_color (codes "#1c1917") in
    record {
      ink = on_color;
      panel = if light then codes "rgba(0,0,0,0.08)" else codes "rgba(255,255,255,0.14)";
      win = if light then codes "rgba(0,0,0,0.11)" else codes "rgba(255,255,255,0.20)";
      border = if light then codes "rgba(0,0,0,0.24)" else codes "rgba(255,255,255,0.34)";
    }

pub record Surfaces : Type 0 where
  pub ink : Text
  pub panel : Text
  pub win : Text
  pub border : Text
  pub soft : Text

unfoldable pub chrome_surfaces : Text → Surfaces
chrome_surfaces on_color =
    let light = text_eq on_color (codes "#1c1917") in
    record {
      ink = on_color;
      panel = if light then codes "rgba(0,0,0,0.07)" else codes "rgba(255,255,255,0.14)";
      win = if light then codes "rgba(0,0,0,0.10)" else codes "rgba(255,255,255,0.20)";
      border = if light then codes "rgba(0,0,0,0.22)" else codes "rgba(255,255,255,0.34)";
      soft = if light then codes "rgba(0,0,0,0.13)" else codes "rgba(255,255,255,0.26)";
    }

-- `U`
abbrev pub unit : Text
unit = codes "min(1cqw, 11px)"

-- `u` and `cu` of a numeral, and `cu` of a number
abbrev pub u : String → Text
u n = codes "calc(var(--u) * " ++ (codes n ++ codes ")")

abbrev calc_cu : Text → Text
calc_cu n = codes "calc(min(1cqw, 9px) * " ++ (n ++ codes ")")

abbrev pub cu : String → Text
cu n = calc_cu (codes n)

abbrev pub cu_nat : ℕ → Text
cu_nat n = calc_cu (show n)
