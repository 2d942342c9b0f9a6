-- ===== src/Preview/Blackbox.antt =====
-- The menu and the bar of Blackbox in islands/DesktopPreview.tsx.
use desktopcolors.Common.{List, [], ◌∷◌, ◌++◌, Bool, true, false, Text, codes, if◌then◌else◌}
use desktopcolors.Preview.Html.{Html, el, txt, together, flat_map, test_id, style, prop, tpl}
use desktopcolors.Preview.Surfaces.{Surfaces, chrome_surfaces, cu}

pub record MenuEntry : Type 0 where
  pub label : Text
  pub arrow : Bool
  pub active : Bool

-- `MENU_ITEMS`
unfoldable pub menu_items : List MenuEntry
menu_items =
    record { label = codes "xterm"; arrow = false; active = false }
    ∷ record { label = codes "Editor"; arrow = false; active = false }
    ∷ record { label = codes "Mail"; arrow = false; active = false }
    ∷ record { label = codes "Graphics"; arrow = true; active = true }
    ∷ record { label = codes "Styles"; arrow = true; active = false }
    ∷ record { label = codes "Workspaces"; arrow = true; active = false }
    ∷ record { label = codes "Restart"; arrow = false; active = false }
    ∷ record { label = codes "Exit"; arrow = false; active = false }
    ∷ []

unfoldable pub menu_title : Surfaces → Text → Html
menu_title s label =
    el "div"
      (style (
          prop "height" (cu "3.5")
          ∷ prop "background" s.soft
          ∷ prop "boxShadow" (tpl (codes "inset 0 0 0 " ∷ cu "0.3" ∷ codes " " ∷ s.border ∷ []))
          ∷ prop "display" (codes "flex")
          ∷ prop "alignItems" (codes "center")
          ∷ prop "justifyContent" (codes "center")
          ∷ [])
        ∷ [])
      (el "span"
        (style (
            prop "font" (tpl (codes "700 " ∷ cu "2.1" ∷ codes " var(--font-ui)" ∷ []))
            ∷ prop "color" s.ink
            ∷ prop "opacity" (codes "0.92")
            ∷ prop "letterSpacing" (cu "0.05")
            ∷ [])
          ∷ [])
        (txt label))

unfoldable pub menu_item : Surfaces → Text → Bool → Bool → Html
menu_item s label arrow active =
    el "div"
      (style (
          prop "height" (cu "2.8")
          ∷ prop "display" (codes "flex")
          ∷ prop "alignItems" (codes "center")
          ∷ prop "gap" (cu "1")
          ∷ prop "padding" (tpl (codes "0 " ∷ cu "1.4" ∷ []))
          ∷ prop "background" (if active then s.soft else codes "transparent")
          ∷ [])
        ∷ [])
      (together (
        el "span"
          (style (
              prop "flex" (codes "1")
              ∷ prop "font" (tpl (codes "400 " ∷ cu "2" ∷ codes " var(--font-ui)" ∷ []))
              ∷ prop "color" s.ink
              ∷ prop "opacity" (if active then codes "1" else codes "0.86")
              ∷ prop "whiteSpace" (codes "nowrap")
              ∷ [])
            ∷ [])
          (txt label)
        ∷ (if arrow
            then el "span"
                (style (
                    prop "width" (codes "0")
                    ∷ prop "height" (codes "0")
                    ∷ prop "borderTop" (tpl (cu "0.8" ∷ codes " solid transparent" ∷ []))
                    ∷ prop "borderBottom" (tpl (cu "0.8" ∷ codes " solid transparent" ∷ []))
                    ∷ prop "borderLeft" (tpl (cu "1" ∷ codes " solid " ∷ s.ink ∷ []))
                    ∷ prop "opacity" (codes "0.7")
                    ∷ [])
                  ∷ [])
                ([])
            else [])
        ∷ []))

unfoldable pub root_menu_view : Text → Html
unfolding menu_items menu_title menu_item
root_menu_view on_color =
    let s = chrome_surfaces on_color in
    let panel : List (Text × Text) =
      prop "background" s.win
      ∷ prop "boxShadow" (
          tpl (
            codes "inset 0 0 0 "
            ∷ cu "0.3"
            ∷ codes " "
            ∷ s.border
            ∷ codes ", 0 "
            ∷ cu "2.4"
            ∷ codes " "
            ∷ cu "6"
            ∷ codes " rgba(0,0,0,0.18)"
            ∷ []))
      ∷ prop "borderRadius" (cu "1")
      ∷ prop "overflow" (codes "hidden")
      ∷ [] in
    el "div"
      (test_id (codes "chrome-rootmenu")
        ∷ style (
            prop "position" (codes "absolute")
            ∷ prop "left" (codes "50%")
            ∷ prop "top" (codes "50%")
            ∷ prop "transform" (codes "translate(-56%, -58%)")
            ∷ prop "display" (codes "flex")
            ∷ prop "alignItems" (codes "flex-start")
            ∷ [])
        ∷ [])
      (together (
        el "div" (style ((prop "width" (cu "27") ∷ []) ++ panel) ∷ []) (
          together (
            menu_title s (codes "Blackbox")
            ∷ el "div" (style (prop "padding" (tpl (cu "0.8" ∷ codes " 0" ∷ [])) ∷ []) ∷ [])
                (flat_map (λ (it : MenuEntry). menu_item s it.label it.arrow it.active) menu_items)
            ∷ []))
        ∷ el "div"
            (style (
                (prop "width" (cu "22")
                  ∷ prop "marginTop" (cu "12.7")
                  ∷ prop "marginLeft" (tpl (codes "calc(" ∷ cu "0.6" ∷ codes " * -1)" ∷ []))
                  ∷ [])
                ++ panel)
              ∷ [])
            (together (
              menu_title s (codes "Graphics")
              ∷ el "div" (style (prop "padding" (tpl (cu "0.8" ∷ codes " 0" ∷ [])) ∷ []) ∷ []) (
                  flat_map (λ (l : Text). menu_item s l false false)
                    ((codes "Image Editor") ∷ (codes "Vector Tool") ∷ (codes "Screen Grab") ∷ []))
              ∷ []))
        ∷ []))

-- a triangle, whose solid edge is `borderRight` for the first and `borderLeft` for the second
unfoldable pub workspace_arrow : Surfaces → Text → Html
workspace_arrow s edge =
    el "span"
      (style (
          prop "width" (codes "0")
          ∷ prop "height" (codes "0")
          ∷ prop "borderTop" (tpl (cu "0.85" ∷ codes " solid transparent" ∷ []))
          ∷ prop "borderBottom" (tpl (cu "0.85" ∷ codes " solid transparent" ∷ []))
          ∷ (edge, tpl (cu "1.1" ∷ codes " solid " ∷ s.ink ∷ []))
          ∷ prop "opacity" (codes "0.65")
          ∷ [])
        ∷ [])
      []

unfoldable pub workspace_arrows : Surfaces → Html
unfolding workspace_arrow
workspace_arrows s =
    el "div"
      (style (
          prop "display" (codes "flex")
          ∷ prop "alignItems" (codes "center")
          ∷ prop "gap" (cu "1.4")
          ∷ [])
        ∷ [])
      (together
        (workspace_arrow s (codes "borderRight") ∷ workspace_arrow s (codes "borderLeft") ∷ []))

unfoldable pub workspace_bar_view : Text → Html
unfolding workspace_arrows
workspace_bar_view on_color =
    let s = chrome_surfaces on_color in
    el "div"
      (test_id (codes "chrome-workspacebar")
        ∷ style (
            prop "position" (codes "absolute")
            ∷ prop "left" (codes "50%")
            ∷ prop "bottom" (cu "3")
            ∷ prop "transform" (codes "translateX(-50%)")
            ∷ prop "width" (cu "62")
            ∷ prop "height" (cu "4.8")
            ∷ prop "borderRadius" (cu "1")
            ∷ prop "background" s.win
            ∷ prop "boxShadow" (
                tpl (
                  codes "inset 0 0 0 "
                  ∷ cu "0.3"
                  ∷ codes " "
                  ∷ s.border
                  ∷ codes ", 0 "
                  ∷ cu "1.6"
                  ∷ codes " "
                  ∷ cu "4"
                  ∷ codes " rgba(0,0,0,0.16)"
                  ∷ []))
            ∷ prop "display" (codes "flex")
            ∷ prop "alignItems" (codes "center")
            ∷ prop "gap" (cu "2")
            ∷ prop "padding" (tpl (codes "0 " ∷ cu "1.8" ∷ []))
            ∷ [])
        ∷ [])
      (together (
        el "span"
          (style (
              prop "font" (tpl (codes "500 " ∷ cu "2.2" ∷ codes " var(--font-ui)" ∷ []))
              ∷ prop "color" s.ink
              ∷ prop "opacity" (codes "0.9")
              ∷ prop "whiteSpace" (codes "nowrap")
              ∷ [])
            ∷ [])
          (txt (codes "Workspace 1"))
        ∷ workspace_arrows s
        ∷ el "span"
            (style (
                prop "flex" (codes "1")
                ∷ prop "height" (cu "1.2")
                ∷ prop "borderRadius" (cu "0.6")
                ∷ prop "background" s.panel
                ∷ [])
              ∷ [])
            ([])
        ∷ workspace_arrows s
        ∷ el "span"
            (style (
                prop "font" (tpl (codes "500 " ∷ cu "2.1" ∷ codes " var(--font-mono)" ∷ []))
                ∷ prop "color" s.ink
                ∷ prop "opacity" (codes "0.9")
                ∷ [])
              ∷ [])
            (txt (codes "12:11 PM"))
        ∷ []))
