-- ===== src/Detail/Samples.antt =====
-- A page for the runs and the examples.
use desktopcolors.Common.{ℕ, [], ◌∷◌, none, Bool, true, false, Text, codes}
use desktopcolors.Content.{win9x}
use desktopcolors.Color.Spaces.{RalColor}
use desktopcolors.Color.Types.{teal}
use desktopcolors.Catalog.Defs.{OsView, ColorView}
use desktopcolors.Scores.{points}
use desktopcolors.ColorCatalog.Platforms.{Platform}
use desktopcolors.Detail.Defs.{OsMeta, DetailOf, DetailColor, OsDetailView}

abbrev pub ral : RalColor
ral = record { code = codes "RAL 5018"; name = codes "Turquoise blue"; hex = codes "#058b8c" }

abbrev pub use_of : Text → Bool → Platform
use_of slug is_default = record {
  slug = slug;
  name = slug;
  year = 1995;
  family = codes "Windows";
  is_default = is_default;
}

abbrev pub table : Text → OsMeta
table slug = record { name = slug; year = 1995; family = codes "Windows" }

abbrev pub detail : DetailOf ℕ Platform
detail = record {
  ral = ral;
  ral_design = ral;
  extra_formats = [];
  similar =
      record {
        hex = codes "#008081";
        name = codes "Teal";
        match = 99;
        on_color = codes "#ffffff";
        h = 180;
        s = 100;
        l = 25;
        primary_slug = codes "win98";
        style = win9x;
        platforms = use_of (codes "win98") true ∷ use_of (codes "win95") false ∷ [];
      }
      ∷ [];
  uses = use_of (codes "win95") true ∷ [];
}

abbrev pub color_view : ColorView
color_view = record {
  hex = codes "#008080";
  name = codes "Teal";
  note = codes "default";
  is_default = true;
  rgb = codes "0, 128, 128";
  hsl = codes "180° 100% 25%";
  cmyk = codes "100% 0% 0% 50%";
  on_color = codes "#ffffff";
  family = teal;
  types = [];
  score = 0;
  score_label = codes "< 1k";
}

abbrev pub os : OsView
os = record {
  slug = codes "win95";
  name = codes "Windows 95";
  year = 1995;
  added = codes "2025-01-01";
  family = codes "Windows";
  description = codes "A system.";
  desktop_style = win9x;
  kind = none;
  project = none;
  links = [];
  wikipedia = none;
  source = none;
  colors = color_view ∷ [];
  default_hex = codes "#008080";
  color_count = 1;
  score = points 0;
  score_label = codes "< 1k";
  predecessor = none;
  successor = none;
}

abbrev pub shown_color : DetailColor ℕ
shown_color = record { color = color_view; detail = detail }

abbrev pub view : OsDetailView ℕ
view = record { os = os; colors = shown_color ∷ []; era_peers = [] }
