-- ===== src/Preview/GadgetWindows.antt =====
-- The windows with gadgets of islands/DesktopPreview.tsx: Platinum, CDE and GEM.
use desktopcolors.Common.{ℕ, [], ◌∷◌, Text, codes}
use desktopcolors.Chrome.Defs.{WindowBody}
use desktopcolors.Preview.Html.{Html, el, together, repeat_html, test_id, style, prop, tpl}
use desktopcolors.Preview.Surfaces.{Surfaces, chrome_surfaces, cu, cu_nat}
use desktopcolors.Preview.Icons.{window_body_view}

unfoldable pub platinum_box : Surfaces → Html
platinum_box s =
    el "span"
      (style (
          prop "position" (codes "relative")
          ∷ prop "width" (cu "2.8")
          ∷ prop "height" (cu "2.8")
          ∷ prop "borderRadius" (cu "0.5")
          ∷ prop "background" s.win
          ∷ prop "boxShadow" (tpl (codes "inset 0 0 0 " ∷ cu "0.35" ∷ codes " " ∷ s.border ∷ []))
          ∷ [])
        ∷ [])
      ([])

unfoldable pub platinum_window_view : ℕ → ℕ → ℕ → WindowBody → Text → Html
unfolding window_body_view platinum_box
platinum_window_view left top w body on_color =
    let s = chrome_surfaces on_color in
    let stripes = tpl (
      codes "repeating-linear-gradient(to bottom, "
      ∷ s.border
      ∷ codes " 0, "
      ∷ s.border
      ∷ codes " "
      ∷ cu "0.3"
      ∷ codes ", transparent "
      ∷ cu "0.3"
      ∷ codes ", transparent "
      ∷ cu "0.8"
      ∷ codes ")"
      ∷ []) in
    let gap = cu "8" in
    el "div"
      (test_id (codes "chrome-platinumwindow")
        ∷ style (
            prop "position" (codes "absolute")
            ∷ prop "left" (cu_nat left)
            ∷ prop "top" (cu_nat top)
            ∷ prop "width" (cu_nat w)
            ∷ prop "background" s.win
            ∷ prop "borderRadius" (
                tpl (
                  cu "1.2"
                  ∷ codes " "
                  ∷ cu "1.2"
                  ∷ codes " "
                  ∷ cu "0.5"
                  ∷ codes " "
                  ∷ cu "0.5"
                  ∷ []))
            ∷ prop "boxShadow" (
                tpl (
                  codes "inset 0 0 0 "
                  ∷ cu "0.3"
                  ∷ codes " "
                  ∷ s.border
                  ∷ codes ", 0 "
                  ∷ cu "2.4"
                  ∷ codes " "
                  ∷ cu "6"
                  ∷ codes " rgba(0,0,0,0.18)"
                  ∷ []))
            ∷ prop "overflow" (codes "hidden")
            ∷ [])
        ∷ [])
      (together (
        el "div"
          (style (
              prop "position" (codes "relative")
              ∷ prop "height" (cu "5.5")
              ∷ prop "display" (codes "flex")
              ∷ prop "alignItems" (codes "center")
              ∷ prop "justifyContent" (codes "space-between")
              ∷ prop "padding" (tpl (codes "0 " ∷ cu "1.8" ∷ []))
              ∷ prop "boxShadow"
                  (tpl (codes "inset 0 calc(" ∷ cu "0.3" ∷ codes " * -1) 0 " ∷ s.border ∷ []))
              ∷ [])
            ∷ [])
          (together (
            el "div"
              (style (
                  prop "position" (codes "absolute")
                  ∷ prop "left" (cu "5.2")
                  ∷ prop "right" (tpl (codes "calc(50% + " ∷ gap ∷ codes ")" ∷ []))
                  ∷ prop "top" (cu "1")
                  ∷ prop "bottom" (cu "1")
                  ∷ prop "backgroundImage" stripes
                  ∷ [])
                ∷ [])
              ([])
            ∷ el "div"
                (style (
                    prop "position" (codes "absolute")
                    ∷ prop "left" (tpl (codes "calc(50% + " ∷ gap ∷ codes ")" ∷ []))
                    ∷ prop "right" (cu "9")
                    ∷ prop "top" (cu "1")
                    ∷ prop "bottom" (cu "1")
                    ∷ prop "backgroundImage" stripes
                    ∷ [])
                  ∷ [])
                ([])
            ∷ platinum_box s
            ∷ el "div" (style (prop "display" (codes "flex") ∷ prop "gap" (cu "1") ∷ []) ∷ [])
                (together (platinum_box s ∷ platinum_box s ∷ []))
            ∷ el "span"
                (style (
                    prop "position" (codes "absolute")
                    ∷ prop "left" (codes "50%")
                    ∷ prop "top" (codes "50%")
                    ∷ prop "transform" (codes "translate(-50%, -50%)")
                    ∷ prop "width" (cu "12")
                    ∷ prop "height" (cu "1.6")
                    ∷ prop "borderRadius" (cu "0.8")
                    ∷ prop "background" s.soft
                    ∷ [])
                  ∷ [])
                ([])
            ∷ []))
        ∷ el "div" (style (prop "padding" (cu "2.2") ∷ []) ∷ []) (window_body_view body on_color)
        ∷ []))

unfoldable pub gadget_window : Text → ℕ → ℕ → ℕ → WindowBody → ℕ → Text → Html
unfolding window_body_view platinum_box
gadget_window testid left top w body right_boxes on_color =
    let s = chrome_surfaces on_color in
    el "div"
      (test_id testid
        ∷ style (
            prop "position" (codes "absolute")
            ∷ prop "left" (cu_nat left)
            ∷ prop "top" (cu_nat top)
            ∷ prop "width" (cu_nat w)
            ∷ prop "background" s.win
            ∷ prop "borderRadius" (cu "0.8")
            ∷ prop "boxShadow" (
                tpl (
                  codes "inset 0 0 0 "
                  ∷ cu "0.3"
                  ∷ codes " "
                  ∷ s.border
                  ∷ codes ", 0 "
                  ∷ cu "2.4"
                  ∷ codes " "
                  ∷ cu "6"
                  ∷ codes " rgba(0,0,0,0.18)"
                  ∷ []))
            ∷ prop "overflow" (codes "hidden")
            ∷ [])
        ∷ [])
      (together (
        el "div"
          (style (
              prop "position" (codes "relative")
              ∷ prop "height" (cu "5.5")
              ∷ prop "display" (codes "flex")
              ∷ prop "alignItems" (codes "center")
              ∷ prop "justifyContent" (codes "space-between")
              ∷ prop "padding" (tpl (codes "0 " ∷ cu "1.8" ∷ []))
              ∷ prop "boxShadow"
                  (tpl (codes "inset 0 calc(" ∷ cu "0.3" ∷ codes " * -1) 0 " ∷ s.border ∷ []))
              ∷ [])
            ∷ [])
          (together (
            platinum_box s
            ∷ el "span"
                (style (
                    prop "position" (codes "absolute")
                    ∷ prop "left" (codes "50%")
                    ∷ prop "top" (codes "50%")
                    ∷ prop "transform" (codes "translate(-50%, -50%)")
                    ∷ prop "width" (cu "14")
                    ∷ prop "height" (cu "1.6")
                    ∷ prop "borderRadius" (cu "0.8")
                    ∷ prop "background" s.soft
                    ∷ [])
                  ∷ [])
                ([])
            ∷ el "div" (style (prop "display" (codes "flex") ∷ prop "gap" (cu "1") ∷ []) ∷ [])
                (repeat_html right_boxes (platinum_box s))
            ∷ []))
        ∷ el "div" (style (prop "padding" (cu "2.2") ∷ []) ∷ []) (window_body_view body on_color)
        ∷ []))
