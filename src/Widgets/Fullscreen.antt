-- ===== src/Widgets/Fullscreen.antt =====
-- The markup of islands/FullscreenPreview.tsx.
use desktopcolors.Common.{ℕ, [], ◌∷◌, ◌++◌, Option, some, Text, codes, show}
use desktopcolors.Color.Floats.{Floats}
use desktopcolors.Content.{DesktopStyle}
use desktopcolors.Preview.Html.{Html, el, txt, together, href, attr, span_of, div_of}
use desktopcolors.Preview.Scene.{desktop_preview}

-- `btn`
abbrev btn : Text
btn =
    codes
      "position: absolute; cursor: pointer; display: inline-flex; align-items: center; gap: 8px; background: rgba(255,255,255,0.92); border: none; border-radius: 10px; padding: 10px 15px; font: 500 13px var(--font-ui); color: #1c1917; box-shadow: 0 2px 10px rgba(0,0,0,0.2);"

unfoldable pub overlay_button : Text → Text → Text → Text → Html
overlay_button title aria place label =
    el "button"
      (attr "title" title
        ∷ attr "aria-label" aria
        ∷ attr "style" (btn ++ (codes " " ++ place))
        ∷ [])
      (txt label)

-- the label, a link to the page of the color where there is one; the empty text is none
abbrev pub preview_label : Option Text → Text → Html
preview_label (some (c ∷ url)) label =
    el "a"
      (href (c ∷ url)
        ∷ attr "title" (codes "Open detail page")
        ∷ attr "style" (
            codes
              "position: absolute; top: 22px; left: 50%; transform: translateX(-50%); display: inline-flex; align-items: center; gap: 9px; background: rgba(255,255,255,0.92); border-radius: 999px; padding: 8px 8px 8px 18px; font: 500 13px var(--font-ui); color: #1c1917; box-shadow: 0 2px 10px rgba(0,0,0,0.2);")
        ∷ [])
      (together (
        txt label
        ∷ span_of
            (codes
              "display: inline-flex; align-items: center; gap: 5px; background: var(--ink); color: #fff; border-radius: 999px; padding: 4px 11px; font: 500 12px var(--font-ui);")
            (txt (codes "Details ")
              ∷ span_of (codes "font-size: 13px; line-height: 1;") (txt (codes "→") ∷ [])
              ∷ [])
        ∷ []))
preview_label other label =
    div_of
      (codes
        "position: absolute; top: 22px; left: 50%; transform: translateX(-50%); background: rgba(255,255,255,0.92); border-radius: 999px; padding: 8px 18px; font: 500 13px var(--font-ui); color: #1c1917; box-shadow: 0 2px 10px rgba(0,0,0,0.2);")
      (txt label ∷ [])

module _ (fl : Floats) where
  unfoldable pub fullscreen_preview :
      Text → Text → DesktopStyle → Option Text → Text → ℕ → ℕ → Option Text → Html
  unfolding overlay_button desktop_preview
  fullscreen_preview hex on_color desktop accent label pos total detail_href =
      div_of (codes "position: fixed; inset: 0; z-index: 100;") (
        desktop_preview fl hex on_color desktop accent
        ∷ preview_label detail_href label
        ∷ overlay_button (codes "Close (Esc)") (codes "Close") (codes "top: 20px; right: 22px;")
            (codes "✕ Close")
        ∷ overlay_button (codes "Previous (←)") (codes "Previous color")
            (codes
              "top: 50%; left: 22px; transform: translateY(-50%); width: 44px; height: 44px; justify-content: center; font-size: 20px;")
            (codes "‹")
        ∷ overlay_button (codes "Next (→)") (codes "Next color")
            (codes
              "top: 50%; right: 22px; transform: translateY(-50%); width: 44px; height: 44px; justify-content: center; font-size: 20px;")
            (codes "›")
        ∷ div_of
            (codes
              "position: absolute; bottom: 60px; left: 50%; transform: translateX(-50%); background: rgba(0,0,0,0.28); color: #fff; font: 500 12px var(--font-mono); padding: 5px 13px; border-radius: 999px;")
            (txt (show pos) ∷ txt (codes " / ") ∷ txt (show total) ∷ [])
        ∷ [])
