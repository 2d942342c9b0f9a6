-- ===== src/Controls/Tests.antt =====
-- The theorem on islands/PlatformControls.tsx at two items.
use mathlib.Core.List.{Perm}
use desktopcolors.Common.{
  ℕ, List, [], ◌∷◌, ◌++◌, true, Text, codes, length, All, to_lower_case, trim,
}
use desktopcolors.Controls.Defs.{PlatformItem, newest, Sign, difference, Controls, shown}
use desktopcolors.Controls.Laws.{
  IsComparison, difference-IsComparison, on-IsComparison, AllInOrder, shown_lem,
}
use desktopcolors.Controls.Search.{Mentions}

-- a stand-in for `localeCompare`: the longer text is greater
abbrev by_length : Text → Text → Sign
by_length s t = difference (length s) (length t)

by_length-IsComparison : IsComparison by_length
by_length-IsComparison = on-IsComparison difference difference-IsComparison length

abbrev item : Text → ℕ → Text → PlatformItem
item name year added = record {
  slug = name;
  name = name;
  year = year;
  added = added;
  family = codes "Windows";
  default_hex = codes "#008080";
  color_count = 1;
  score = 0;
  score_label = codes "< 1k";
  alt_colors = [];
  href = codes "/os/win95";
  list_colors = [];
}

abbrev items : List PlatformItem
items =
    item (codes "Windows 95") 1995 (codes "2025-01-01") ∷ item (codes "NT") 1993 (codes "2025") ∷ []

abbrev state : Controls
state = record { query = codes "WIN"; sort_key = newest; rev = true }

shown_lem_example :
    (found left_out : List PlatformItem) × Perm (shown by_length items state) found
    × Perm items (found ++ left_out)
    × All (Mentions (to_lower_case (trim state.query))) found
    × All (λ it. ¬ (Mentions (to_lower_case (trim state.query)) it)) left_out
    × AllInOrder by_length state.sort_key state.rev (shown by_length items state)
shown_lem_example = shown_lem by_length by_length-IsComparison items state
