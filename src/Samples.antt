-- ===== src/Samples.antt =====
-- Entries for the runs and the examples.
use desktopcolors.Common.{ℕ, List, [], ◌∷◌, Option, none, some, Bool, true, false, Text, codes}
use desktopcolors.Content.{OsColor, DesktopStyle, win9x, win31}
use desktopcolors.Derive.Defs.{OsEntry}

abbrev pub color : Text → Text → Bool → OsColor
color hex name default = record {
  hex = hex;
  name = name;
  note = codes "palette";
  default = default;
}

abbrev pub entry : Text → Text → ℕ → DesktopStyle → Option Text → List OsColor → OsEntry
entry slug name year style predecessor colors = record {
  slug = slug;
  os = record {
    name = name;
    year = year;
    added = codes "2025-01-01";
    family = codes "Windows";
    description = codes "A system.";
    predecessor = predecessor;
    successor = none;
    desktop_style = style;
    kind = none;
    project = none;
    links = [];
    wikipedia = none;
    source = none;
    colors = colors;
  };
}

abbrev pub win31_entry : OsEntry
win31_entry = entry (codes "win31") (codes "Windows 3.1") 1992 win31 none (
    color (codes "#008080") (codes "Cyan") false
    ∷ color (codes "#ffffff") (codes "White") true
    ∷ [])

abbrev pub win95_entry : OsEntry
win95_entry =
    entry (codes "win95") (codes "Windows 95") 1995 win9x (some (codes "win31"))
      (color (codes "#008080") (codes "Teal") true ∷ [])

abbrev pub two_entries : List OsEntry
two_entries = win31_entry ∷ win95_entry ∷ []
