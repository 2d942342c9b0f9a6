-- ===== src/Preview/UnixWindows.antt =====
-- The windows of OPEN LOOK and of Plan 9 in islands/DesktopPreview.tsx.
use Prim.Native.String.{String}
use desktopcolors.Common.{ℕ, [], ◌∷◌, Text, codes}
use desktopcolors.Chrome.Defs.{WindowBody}
use desktopcolors.Preview.Html.{Html, el, together, flat_map, test_id, style, prop, tpl}
use desktopcolors.Preview.Surfaces.{Surfaces, chrome_surfaces, cu, cu_nat}
use desktopcolors.Preview.Icons.{window_body_view}

unfoldable pub menu_mark : Surfaces → Html
menu_mark s =
    el "span"
      (style (
          prop "width" (codes "0")
          ∷ prop "height" (codes "0")
          ∷ prop "borderLeft" (tpl (cu "0.9" ∷ codes " solid transparent" ∷ []))
          ∷ prop "borderRight" (tpl (cu "0.9" ∷ codes " solid transparent" ∷ []))
          ∷ prop "borderTop" (tpl (cu "0.9" ∷ codes " solid " ∷ s.border ∷ []))
          ∷ [])
        ∷ [])
      ([])

unfoldable pub open_look_window_view : ℕ → ℕ → ℕ → WindowBody → Text → Html
unfolding window_body_view menu_mark
open_look_window_view left top w body on_color =
    let s = chrome_surfaces on_color in
    el "div"
      (test_id (codes "chrome-openlookwindow")
        ∷ style (
            prop "position" (codes "absolute")
            ∷ prop "left" (cu_nat left)
            ∷ prop "top" (cu_nat top)
            ∷ prop "width" (cu_nat w)
            ∷ prop "background" s.win
            ∷ prop "borderRadius" (cu "0.4")
            ∷ prop "boxShadow" (
                tpl (
                  codes "inset 0 0 0 "
                  ∷ cu "0.3"
                  ∷ codes " "
                  ∷ s.border
                  ∷ codes ", 0 "
                  ∷ cu "2.4"
                  ∷ codes " "
                  ∷ cu "6"
                  ∷ codes " rgba(0,0,0,0.18)"
                  ∷ []))
            ∷ prop "overflow" (codes "hidden")
            ∷ [])
        ∷ [])
      (together (
        el "div"
          (style (
              prop "position" (codes "relative")
              ∷ prop "height" (cu "5.5")
              ∷ prop "display" (codes "flex")
              ∷ prop "alignItems" (codes "center")
              ∷ prop "padding" (tpl (codes "0 " ∷ cu "1.8" ∷ []))
              ∷ prop "boxShadow"
                  (tpl (codes "inset 0 calc(" ∷ cu "0.3" ∷ codes " * -1) 0 " ∷ s.border ∷ []))
              ∷ [])
            ∷ [])
          (together (
            el "span"
              (style (
                  prop "display" (codes "flex")
                  ∷ prop "alignItems" (codes "center")
                  ∷ prop "justifyContent" (codes "center")
                  ∷ prop "width" (cu "2.8")
                  ∷ prop "height" (cu "2.8")
                  ∷ prop "borderRadius" (cu "0.4")
                  ∷ prop "background" s.win
                  ∷ prop "boxShadow"
                      (tpl (codes "inset 0 0 0 " ∷ cu "0.35" ∷ codes " " ∷ s.border ∷ []))
                  ∷ [])
                ∷ [])
              (menu_mark s)
            ∷ el "span"
                (style (
                    prop "position" (codes "absolute")
                    ∷ prop "left" (codes "50%")
                    ∷ prop "top" (codes "50%")
                    ∷ prop "transform" (codes "translate(-50%, -50%)")
                    ∷ prop "width" (cu "14")
                    ∷ prop "height" (cu "1.6")
                    ∷ prop "borderRadius" (cu "0.8")
                    ∷ prop "background" s.soft
                    ∷ [])
                  ∷ [])
                ([])
            ∷ []))
        ∷ el "div"
            (style (
                prop "display" (codes "flex")
                ∷ prop "alignItems" (codes "center")
                ∷ prop "gap" (cu "1.2")
                ∷ prop "padding" (tpl (cu "1.2" ∷ codes " " ∷ cu "1.8" ∷ []))
                ∷ prop "boxShadow"
                    (tpl (codes "inset 0 calc(" ∷ cu "0.3" ∷ codes " * -1) 0 " ∷ s.border ∷ []))
                ∷ [])
              ∷ [])
            (flat_map
              (λ (i : String).
                el "span"
                  (style (
                      prop "display" (codes "flex")
                      ∷ prop "alignItems" (codes "center")
                      ∷ prop "justifyContent" (codes "center")
                      ∷ prop "gap" (cu "0.8")
                      ∷ prop "width" (cu "8")
                      ∷ prop "height" (cu "2.8")
                      ∷ prop "borderRadius" (cu "1.4")
                      ∷ prop "background" s.win
                      ∷ prop "boxShadow"
                          (tpl (codes "inset 0 0 0 " ∷ cu "0.3" ∷ codes " " ∷ s.border ∷ []))
                      ∷ [])
                    ∷ [])
                  (together (
                    el "span"
                      (style (
                          prop "width" (cu "3")
                          ∷ prop "height" (cu "1.2")
                          ∷ prop "borderRadius" (cu "0.6")
                          ∷ prop "background" s.soft
                          ∷ [])
                        ∷ [])
                      ([])
                    ∷ menu_mark s
                    ∷ [])))
              ("0" ∷ "1" ∷ "2" ∷ []))
        ∷ el "div" (style (prop "padding" (cu "2.2") ∷ []) ∷ []) (window_body_view body on_color)
        ∷ []))

unfoldable pub rio_window_view : ℕ → ℕ → ℕ → WindowBody → Text → Html
unfolding window_body_view
rio_window_view left top w body on_color =
    let s = chrome_surfaces on_color in
    el "div"
      (test_id (codes "chrome-riowindow")
        ∷ style (
            prop "position" (codes "absolute")
            ∷ prop "left" (cu_nat left)
            ∷ prop "top" (cu_nat top)
            ∷ prop "width" (cu_nat w)
            ∷ prop "background" s.win
            ∷ prop "boxShadow" (
                tpl (
                  codes "inset 0 0 0 "
                  ∷ cu "0.5"
                  ∷ codes " "
                  ∷ s.border
                  ∷ codes ", 0 "
                  ∷ cu "2.4"
                  ∷ codes " "
                  ∷ cu "6"
                  ∷ codes " rgba(0,0,0,0.18)"
                  ∷ []))
            ∷ prop "overflow" (codes "hidden")
            ∷ [])
        ∷ [])
      (together (
        el "div"
          (style (
              prop "display" (codes "flex")
              ∷ prop "alignItems" (codes "center")
              ∷ prop "gap" (cu "1.3")
              ∷ prop "height" (cu "4")
              ∷ prop "padding" (tpl (codes "0 " ∷ cu "1.3" ∷ []))
              ∷ prop "background" s.panel
              ∷ prop "boxShadow"
                  (tpl (codes "inset 0 calc(" ∷ cu "0.4" ∷ codes " * -1) 0 " ∷ s.border ∷ []))
              ∷ [])
            ∷ [])
          (together (
            flat_map
              (λ (g : String).
                el "span"
                  (style (
                      prop "flex" (tpl (codes g ∷ codes " 1 0" ∷ []))
                      ∷ prop "height" (cu "1.3")
                      ∷ prop "background" s.soft
                      ∷ [])
                    ∷ [])
                  ([]))
              ("4.6" ∷ "3.2" ∷ "4" ∷ "4.4" ∷ "2.8" ∷ "3.6" ∷ "4.8" ∷ [])
            ∷ el "span" (style (prop "flex" (codes "5 1 0") ∷ []) ∷ []) ([])
            ∷ []))
        ∷ el "div" (style (prop "display" (codes "flex") ∷ []) ∷ []) (
            together (
              el "div"
                (style (
                    prop "flex" (codes "none")
                    ∷ prop "width" (cu "2")
                    ∷ prop "background" s.panel
                    ∷ prop "boxShadow"
                        (tpl (codes "inset calc(" ∷ cu "0.4" ∷ codes " * -1) 0 0 " ∷ s.border ∷ []))
                    ∷ [])
                  ∷ [])
                (el "div"
                  (style (
                      prop "margin" (tpl (cu "1" ∷ codes " " ∷ cu "0.45" ∷ []))
                      ∷ prop "height" (cu "7")
                      ∷ prop "background" s.soft
                      ∷ [])
                    ∷ [])
                  ([]))
              ∷ el "div"
                  (style (
                      prop "flex" (codes "1")
                      ∷ prop "minWidth" (codes "0")
                      ∷ prop "padding" (cu "2")
                      ∷ [])
                    ∷ [])
                  (window_body_view body on_color)
              ∷ []))
        ∷ []))
