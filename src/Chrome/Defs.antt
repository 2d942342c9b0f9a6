-- ===== src/Chrome/Defs.antt =====
-- The schema of lib/chromeSpec.ts. The positions and sizes of the specs are natural numbers.
use desktopcolors.Common.{ℕ, List, Option, Bool, true, not, ◌&&◌, Text, is_empty, all, ltb, ◌==◌}

pub data IconKind : Type 0 where
  computer folder trash drive disk : IconKind

pub data WindowBody : Type 0 where
  grid_icons : List IconKind → ℕ → WindowBody
  rows : List ℕ → WindowBody
  panes : ℕ → WindowBody

pub data Anchor : Type 0 where
  top bottom : Anchor

pub data Side : Type 0 where
  left right : Side

pub data DeskIcon : Type 0 where
  desk_icon : IconKind → Text → DeskIcon

-- the windows with their left, top and width
pub data ChromePart : Type 0 where
  desk_icons : Side → Option Anchor → List DeskIcon → ChromePart
  window beos_window platinum_window cde_window gem_window open_look_window rio_window :
      ℕ → ℕ → ℕ → WindowBody → ChromePart
  taskbar menu_bar top_bar dock front_panel beos_tab bleskos_shell root_menu workspace_bar
        basic_screen :
      ChromePart

abbrev pub ChromeSpec : Type 0
ChromeSpec = List ChromePart

-- what the schema asks of a body: no empty list, and positive numbers
unfoldable pub is_window_body : WindowBody → Bool
is_window_body (grid_icons icons cols) = not (is_empty icons) && ltb 0 cols
is_window_body (rows widths) = not (is_empty widths) && all (λ w. ltb 0 w) widths
is_window_body (panes count) = count == 2

abbrev has_label : DeskIcon → Bool
has_label (desk_icon kind label) = not (is_empty label)

abbrev is_window : ℕ → WindowBody → Bool
is_window w body = ltb 0 w && is_window_body body

unfoldable pub is_chrome_part : ChromePart → Bool
unfolding is_window_body
is_chrome_part (desk_icons side anchor icons) = not (is_empty icons) && all has_label icons
is_chrome_part (window l t w body) = is_window w body
is_chrome_part (beos_window l t w body) = is_window w body
is_chrome_part (platinum_window l t w body) = is_window w body
is_chrome_part (cde_window l t w body) = is_window w body
is_chrome_part (gem_window l t w body) = is_window w body
is_chrome_part (open_look_window l t w body) = is_window w body
is_chrome_part (rio_window l t w body) = is_window w body
is_chrome_part _ = true

unfoldable pub is_chrome_spec : ChromeSpec → Bool
unfolding is_chrome_part
is_chrome_spec parts = all is_chrome_part parts
