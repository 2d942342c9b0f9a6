-- ===== src/Preview/ModernWindows.antt =====
-- The two windows of the style `modern` in islands/DesktopPreview.tsx.
use desktopcolors.Common.{[], ◌∷◌, Text, codes}
use desktopcolors.Preview.Html.{Html, el, txt, together, test_id, attr, tpl}
use desktopcolors.Preview.Surfaces.{surfaces, u, unit}

unfoldable pub modern_window_stack : Text → Html
modern_window_stack on_color =
    let s = surfaces on_color in
    el "div"
      (test_id (codes "chrome-windows")
        ∷ attr "style" (tpl (codes "--u: " ∷ unit ∷ codes ";" ∷ []))
        ∷ [])
      (together (
        el "div"
          (attr "style" (
              tpl (
                codes "position: absolute; left: "
                ∷ u "24"
                ∷ codes "; top: "
                ∷ u "5"
                ∷ codes "; width: "
                ∷ u "46"
                ∷ codes "; height: "
                ∷ u "26"
                ∷ codes "; border-radius: "
                ∷ u "1.6"
                ∷ codes "; background: "
                ∷ s.win
                ∷ codes "; box-shadow: inset 0 0 0 "
                ∷ u "0.3"
                ∷ codes " "
                ∷ s.border
                ∷ codes ", 0 "
                ∷ u "2"
                ∷ codes " "
                ∷ u "5"
                ∷ codes " rgba(0,0,0,0.16); overflow: hidden;"
                ∷ []))
            ∷ [])
          (el "div"
            (attr "style" (
                tpl (
                  codes "height: "
                  ∷ u "6"
                  ∷ codes "; display: flex; align-items: center; padding: 0 "
                  ∷ u "2.4"
                  ∷ codes "; box-shadow: inset 0 "
                  ∷ u "-0.4"
                  ∷ codes " 0 "
                  ∷ s.ink
                  ∷ codes ";"
                  ∷ []))
              ∷ [])
            (el "span"
              (attr "style" (
                  tpl (
                    codes "font: 500 "
                    ∷ u "2.6"
                    ∷ codes " var(--font-ui); opacity: 0.75; color: "
                    ∷ s.ink
                    ∷ codes ";"
                    ∷ []))
                ∷ [])
              (txt (codes "Files"))))
        ∷ el "div"
            (attr "style" (
                tpl (
                  codes "position: absolute; left: "
                  ∷ u "38"
                  ∷ codes "; top: "
                  ∷ u "13"
                  ∷ codes "; width: "
                  ∷ u "52"
                  ∷ codes "; height: "
                  ∷ u "30"
                  ∷ codes "; border-radius: "
                  ∷ u "1.6"
                  ∷ codes "; background: "
                  ∷ s.win
                  ∷ codes "; box-shadow: inset 0 0 0 "
                  ∷ u "0.3"
                  ∷ codes " "
                  ∷ s.border
                  ∷ codes ", 0 "
                  ∷ u "3"
                  ∷ codes " "
                  ∷ u "7"
                  ∷ codes " rgba(0,0,0,0.22); overflow: hidden;"
                  ∷ []))
              ∷ [])
            (together (
              el "div"
                (attr "style" (
                    tpl (
                      codes "height: "
                      ∷ u "6"
                      ∷ codes "; display: flex; align-items: center; padding: 0 "
                      ∷ u "2.4"
                      ∷ codes "; box-shadow: inset 0 "
                      ∷ u "-0.4"
                      ∷ codes " 0 "
                      ∷ s.ink
                      ∷ codes ";"
                      ∷ []))
                  ∷ [])
                (el "span"
                  (attr "style" (
                      tpl (
                        codes "font: 500 "
                        ∷ u "2.6"
                        ∷ codes " var(--font-ui); opacity: 0.8; color: "
                        ∷ s.ink
                        ∷ codes ";"
                        ∷ []))
                    ∷ [])
                  (txt (codes "Documents")))
              ∷ el "div"
                  (attr "style" (
                      tpl (
                        codes "padding: "
                        ∷ u "2.4"
                        ∷ codes "; display: flex; flex-direction: column; gap: "
                        ∷ u "1.6"
                        ∷ codes ";"
                        ∷ []))
                    ∷ [])
                  (together (
                    el "span"
                      (attr "style" (
                          tpl (
                            codes "height: "
                            ∷ u "1.5"
                            ∷ codes "; width: 80%; border-radius: "
                            ∷ u "1"
                            ∷ codes "; background: "
                            ∷ s.border
                            ∷ codes ";"
                            ∷ []))
                        ∷ [])
                      ([])
                    ∷ el "span"
                        (attr "style" (
                            tpl (
                              codes "height: "
                              ∷ u "1.5"
                              ∷ codes "; width: 62%; border-radius: "
                              ∷ u "1"
                              ∷ codes "; background: "
                              ∷ s.border
                              ∷ codes ";"
                              ∷ []))
                          ∷ [])
                        ([])
                    ∷ el "span"
                        (attr "style" (
                            tpl (
                              codes "height: "
                              ∷ u "1.5"
                              ∷ codes "; width: 71%; border-radius: "
                              ∷ u "1"
                              ∷ codes "; background: "
                              ∷ s.border
                              ∷ codes ";"
                              ∷ []))
                          ∷ [])
                        ([])
                    ∷ []))
              ∷ []))
        ∷ []))
