-- ===== src/Preview/Basic.antt =====
-- The screen of the Commodore 64 in islands/DesktopPreview.tsx.
use desktopcolors.Common.{
  List, [], ◌∷◌, Option, Bool, true, false, Text, codes, get_or, if◌then◌else◌,
}
use desktopcolors.Preview.Html.{
  Html, el, txt, together, flat_map, test_id, style, prop, tpl, or_text, is_some,
}
use desktopcolors.Preview.Surfaces.{chrome_surfaces, cu}

pub record BasicLine : Type 0 where
  pub text : Text
  pub center : Bool

-- `BASIC_LINES`
unfoldable pub basic_lines : List BasicLine
basic_lines =
    record { text = codes "**** COMMODORE 64 BASIC V2 ****"; center = true }
    ∷ record { text = []; center = false }
    ∷ record { text = codes "64K RAM SYSTEM  38911 BASIC BYTES FREE"; center = true }
    ∷ record { text = []; center = false }
    ∷ record { text = codes "READY."; center = false }
    ∷ []

-- an accent is never the empty text here
unfoldable pub basic_screen_view : Text → Option Text → Html
unfolding basic_lines
basic_screen_view on_color accent =
    let s = chrome_surfaces on_color in
    let ink = get_or accent s.ink in
    el "div"
      (test_id (codes "chrome-basicscreen")
        ∷ style (
            prop "position" (codes "absolute")
            ∷ prop "inset" (codes "0")
            ∷ prop "boxShadow"
                (tpl (codes "inset 0 0 0 " ∷ cu "3.4" ∷ codes " " ∷ (get_or accent s.panel) ∷ []))
            ∷ prop "padding" (tpl (cu "6" ∷ codes " " ∷ cu "6.5" ∷ []))
            ∷ prop "display" (codes "flex")
            ∷ prop "flexDirection" (codes "column")
            ∷ [])
        ∷ [])
      (together (
        flat_map
          (λ (line : BasicLine).
            el "span"
              (style (
                  prop "font" (tpl (codes "400 " ∷ cu "2.2" ∷ codes " var(--font-mono)" ∷ []))
                  ∷ prop "lineHeight" (cu "3.2")
                  ∷ prop "color" ink
                  ∷ prop "opacity" (if is_some accent then codes "1" else codes "0.9")
                  ∷ prop "whiteSpace" (codes "pre")
                  ∷ prop "textAlign" (if line.center then codes "center" else codes "left")
                  ∷ [])
                ∷ [])
              (txt (or_text line.text (0xa0 ∷ []))))
          basic_lines
        ∷ el "span"
            (style (
                prop "width" (cu "1.5")
                ∷ prop "height" (cu "2.6")
                ∷ prop "marginTop" (cu "0.5")
                ∷ prop "background" ink
                ∷ prop "opacity" (if is_some accent then codes "1" else codes "0.85")
                ∷ [])
              ∷ [])
            ([])
        ∷ []))
