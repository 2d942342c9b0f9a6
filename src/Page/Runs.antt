-- ===== src/Page/Runs.antt =====
-- The theorems on the use of a page of islands/OsDetail.tsx, at a system with two colors.
use desktopcolors.Common.{ℕ, ◌<◌, [], ◌∷◌, none, true, ◌≡◌, refl, arith, codes, Text, run, List}
use desktopcolors.Catalog.{OsView, ColorView, color_path}
use desktopcolors.Explorer.Defs.{forward, step_index}
use desktopcolors.Detail.Samples.{os, color_view, detail}
use desktopcolors.Page.Machine.{
  PageState, step_color, open_full, start, handle, enabled, Reached, mounted, next,
}
use desktopcolors.ColorCatalog.Platforms.{Platform}
use desktopcolors.Detail.Defs.{DetailOf}
use desktopcolors.Page.Defs.{summary, idx_of_hex, find_index, default_idx}
use desktopcolors.Page.Reached.{IsSound, Reached-IsSound}
use desktopcolors.Page.Liveness.{press_next, press_next_reaches}

abbrev blue : ColorView
blue = record color_view { hex = codes "#000080"; name = codes "Navy" }

abbrev pair : OsView
pair = record os { colors = color_view ∷ blue ∷ [] }

abbrev seed : List (Text × DetailOf ℕ Platform)
seed = (codes "#008080", detail) ∷ []

abbrev first_state : PageState ℕ
first_state = start pair true none seed (codes "/os/win95")

-- the fullscreen preview is opened, and "next" is pressed
abbrev later_state : PageState ℕ
later_state = handle pair true (step_color forward) (handle pair true open_full first_state)

-- the second color is shown, and the address says so
stepped : (later_state.sel ≡ 1) × (later_state.url ≡ color_path (codes "win95") (codes "#000080"))
unfolding start idx_of_hex handle step_index default_idx find_index run summary
stepped = (refl, refl)

later_state-Reached : Reached pair true first_state later_state
later_state-Reached =
    next (step_color forward) (next open_full mounted (unfold enabled in refl))
      (unfold enabled handle in refl)

Reached-IsSound_example : IsSound pair none seed (codes "/os/win95") later_state
Reached-IsSound_example =
    Reached-IsSound pair none seed (codes "/os/win95") later_state (omega arith) (tt, tt)
      later_state-Reached

press_next_reaches_example :
    (k : ℕ) × (k < 2)
    × ((press_next pair true k later_state).sel ≡ 0)
    × Reached pair true later_state (press_next pair true k later_state)
press_next_reaches_example =
    press_next_reaches pair true later_state 0
      (unfold start handle step_index idx_of_hex default_idx find_index run in refl)
      (unfold start idx_of_hex handle step_index default_idx find_index run in omega arith)
      (omega arith)
