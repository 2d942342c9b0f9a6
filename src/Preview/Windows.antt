-- ===== src/Preview/Windows.antt =====
-- The windows of islands/DesktopPreview.tsx.
use desktopcolors.Common.{ℕ, [], ◌∷◌, Text, codes}
use desktopcolors.Chrome.Defs.{WindowBody}
use desktopcolors.Preview.Html.{Html, el, together, test_id, style, prop, tpl}
use desktopcolors.Preview.Surfaces.{chrome_surfaces, cu, cu_nat}
use desktopcolors.Preview.Icons.{dots, window_body_view}

unfoldable pub shared_window : ℕ → ℕ → ℕ → WindowBody → Text → Html
unfolding window_body_view dots
shared_window left top w body on_color =
    let s = chrome_surfaces on_color in
    el "div"
      (test_id (codes "chrome-window")
        ∷ style (
            prop "position" (codes "absolute")
            ∷ prop "left" (cu_nat left)
            ∷ prop "top" (cu_nat top)
            ∷ prop "width" (cu_nat w)
            ∷ prop "background" s.win
            ∷ prop "borderRadius" (cu "1.8")
            ∷ prop "boxShadow" (
                tpl (
                  codes "inset 0 0 0 "
                  ∷ cu "0.3"
                  ∷ codes " "
                  ∷ s.border
                  ∷ codes ", 0 "
                  ∷ cu "2.4"
                  ∷ codes " "
                  ∷ cu "6"
                  ∷ codes " rgba(0,0,0,0.18)"
                  ∷ []))
            ∷ prop "overflow" (codes "hidden")
            ∷ [])
        ∷ [])
      (together (
        el "div"
          (style (
              prop "height" (cu "5.5")
              ∷ prop "display" (codes "flex")
              ∷ prop "alignItems" (codes "center")
              ∷ prop "gap" (cu "1.2")
              ∷ prop "padding" (tpl (codes "0 " ∷ cu "2" ∷ []))
              ∷ prop "boxShadow"
                  (tpl (codes "inset 0 calc(" ∷ cu "0.3" ∷ codes " * -1) 0 " ∷ s.border ∷ []))
              ∷ [])
            ∷ [])
          (together (
            el "span"
              (style (
                  prop "width" (cu "12")
                  ∷ prop "height" (cu "1.5")
                  ∷ prop "borderRadius" (cu "0.8")
                  ∷ prop "background" s.soft
                  ∷ [])
                ∷ [])
              ([])
            ∷ el "span" (style (prop "flex" (codes "1") ∷ []) ∷ []) ([])
            ∷ dots s 3
            ∷ []))
        ∷ el "div" (style (prop "padding" (cu "2.2") ∷ []) ∷ []) (window_body_view body on_color)
        ∷ []))

unfoldable pub beos_window_view : ℕ → ℕ → ℕ → WindowBody → Text → Html
unfolding window_body_view
beos_window_view left top w body on_color =
    let s = chrome_surfaces on_color in
    el "div"
      (test_id (codes "chrome-beoswindow")
        ∷ style (
            prop "position" (codes "absolute")
            ∷ prop "left" (cu_nat left)
            ∷ prop "top" (cu_nat top)
            ∷ prop "width" (cu_nat w)
            ∷ [])
        ∷ [])
      (together (
        el "div"
          (style (
              prop "width" (cu "22")
              ∷ prop "height" (cu "4.4")
              ∷ prop "borderRadius" (tpl (cu "1.6" ∷ codes " " ∷ cu "1.6" ∷ codes " 0 0" ∷ []))
              ∷ prop "background" s.win
              ∷ prop "boxShadow" (tpl (codes "inset 0 0 0 " ∷ cu "0.3" ∷ codes " " ∷ s.border ∷ []))
              ∷ prop "display" (codes "flex")
              ∷ prop "alignItems" (codes "center")
              ∷ prop "gap" (cu "1.2")
              ∷ prop "padding" (tpl (codes "0 " ∷ cu "1.8" ∷ []))
              ∷ [])
            ∷ [])
          (el "span"
            (style (
                prop "width" (cu "9")
                ∷ prop "height" (cu "1.5")
                ∷ prop "borderRadius" (cu "0.8")
                ∷ prop "background" s.soft
                ∷ [])
              ∷ [])
            ([]))
        ∷ el "div"
            (style (
                prop "background" s.win
                ∷ prop "borderRadius"
                    (tpl (codes "0 " ∷ cu "1.6" ∷ codes " " ∷ cu "1.6" ∷ codes " " ∷ cu "1.6" ∷ []))
                ∷ prop "boxShadow" (
                    tpl (
                      codes "inset 0 0 0 "
                      ∷ cu "0.3"
                      ∷ codes " "
                      ∷ s.border
                      ∷ codes ", 0 "
                      ∷ cu "2.4"
                      ∷ codes " "
                      ∷ cu "6"
                      ∷ codes " rgba(0,0,0,0.18)"
                      ∷ []))
                ∷ prop "padding" (cu "2.2")
                ∷ [])
              ∷ [])
            (window_body_view body on_color)
        ∷ []))
