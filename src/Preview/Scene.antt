-- ===== src/Preview/Scene.antt =====
-- `renderPart` and `DesktopPreview` of islands/DesktopPreview.tsx: the parts of a style, in order, on the
-- color.
use desktopcolors.Common.{[], ◌∷◌, Option, none, some, Text, codes, if◌then◌else◌}
use desktopcolors.Content.{DesktopStyle}
use desktopcolors.Color.Floats.{Floats}
use desktopcolors.Color.Spaces.{contrast}
use desktopcolors.Chrome.Defs.{
  desk_icons, window, beos_window, platinum_window, cde_window, gem_window, open_look_window,
  rio_window, taskbar, menu_bar, top_bar, dock, front_panel, beos_tab, bleskos_shell, root_menu,
  workspace_bar, basic_screen, ChromePart, ChromeSpec,
}
use desktopcolors.Chrome.Specs.{chrome_specs}
use desktopcolors.Preview.Html.{Html, el, flat_map, attr, tpl}
use desktopcolors.Preview.Icons.{desk_icons_view}
use desktopcolors.Preview.Windows.{shared_window, beos_window_view}
use desktopcolors.Preview.GadgetWindows.{platinum_window_view, gadget_window}
use desktopcolors.Preview.UnixWindows.{open_look_window_view, rio_window_view}
use desktopcolors.Preview.Bars.{taskbar_view, menu_bar_view, top_bar_view, beos_tab_view}
use desktopcolors.Preview.Panels.{dock_view, front_panel_view}
use desktopcolors.Preview.Bleskos.{bleskos_view}
use desktopcolors.Preview.Blackbox.{root_menu_view, workspace_bar_view}
use desktopcolors.Preview.Basic.{basic_screen_view}
use desktopcolors.Preview.Modern.{modern_scene}

unfoldable pub render_part : ChromePart → Text → Option Text → Html
unfolding desk_icons_view shared_window beos_window_view platinum_window_view gadget_window
    open_look_window_view rio_window_view taskbar_view menu_bar_view top_bar_view dock_view
    front_panel_view beos_tab_view bleskos_view root_menu_view workspace_bar_view basic_screen_view
render_part (desk_icons side anchor icons) on_color accent =
    desk_icons_view side anchor icons on_color
render_part (window l t w body) on_color accent = shared_window l t w body on_color
render_part (beos_window l t w body) on_color accent = beos_window_view l t w body on_color
render_part (platinum_window l t w body) on_color accent = platinum_window_view l t w body on_color
render_part (cde_window l t w body) on_color accent =
    gadget_window (codes "chrome-cdewindow") l t w body 2 on_color
render_part (gem_window l t w body) on_color accent =
    gadget_window (codes "chrome-gemwindow") l t w body 1 on_color
render_part (open_look_window l t w body) on_color accent =
    open_look_window_view l t w body on_color
render_part (rio_window l t w body) on_color accent = rio_window_view l t w body on_color
render_part taskbar on_color accent = taskbar_view on_color
render_part menu_bar on_color accent = menu_bar_view on_color
render_part top_bar on_color accent = top_bar_view on_color
render_part dock on_color accent = dock_view on_color
render_part front_panel on_color accent = front_panel_view on_color
render_part beos_tab on_color accent = beos_tab_view on_color
render_part bleskos_shell on_color accent = bleskos_view on_color
render_part root_menu on_color accent = root_menu_view on_color
render_part workspace_bar on_color accent = workspace_bar_view on_color
render_part basic_screen on_color accent = basic_screen_view on_color accent

-- the modern scene for a style without a spec, the parts of the spec otherwise
unfoldable pub scene : Option ChromeSpec → Text → Option Text → Html
unfolding render_part modern_scene
scene none on_color ink = modern_scene on_color
scene (some spec) on_color ink = flat_map (λ part. render_part part on_color ink) spec

-- the box around the scene
abbrev pub preview_box : Text → Html → Html
preview_box hex = el "div" (
    attr "style" (
      tpl (
        codes "position: absolute; inset: 0; background-color: "
        ∷ hex
        ∷ codes "; overflow: hidden; container-type: inline-size;"
        ∷ []))
    ∷ [])

module _ (fl : Floats) where
  open fl use {dec, le}

  -- `accent && contrast(accent, hex) >= ACCENT_MIN ? accent : undefined`; the empty text is false
  unfoldable pub preview_ink : Text → Option Text → Option Text
  preview_ink hex none = none
  preview_ink hex (some []) = none
  preview_ink hex (some (c ∷ cs)) =
      if le (dec 16 1) (contrast fl (c ∷ cs) hex) then some (c ∷ cs) else none

  unfoldable pub desktop_preview : Text → Text → DesktopStyle → Option Text → Html
  unfolding preview_ink scene
  desktop_preview hex on_color style accent =
      preview_box hex (scene (chrome_specs style) on_color (preview_ink hex accent))
