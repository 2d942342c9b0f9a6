-- ===== src/Preview/Bleskos.antt =====
-- The shell of BleskOS in islands/DesktopPreview.tsx.
use Prim.Native.String.{String}
use desktopcolors.Common.{List, [], ◌∷◌, Text, codes}
use desktopcolors.Preview.Html.{Html, el, together, flat_map, test_id, style, prop, tpl}
use desktopcolors.Preview.Surfaces.{Surfaces, chrome_surfaces, cu}

-- `label`, `btn` and `group` of `Bleskos`
unfoldable pub bleskos_label : Surfaces → String → Html
bleskos_label s w =
    el "span"
      (style (
          prop "display" (codes "block")
          ∷ prop "width" (cu w)
          ∷ prop "height" (cu "1.3")
          ∷ prop "borderRadius" (cu "0.7")
          ∷ prop "background" s.soft
          ∷ [])
        ∷ [])
      ([])

unfoldable pub bleskos_button : Surfaces → String → Html
bleskos_button s w =
    el "div"
      (style (
          prop "height" (cu "4")
          ∷ prop "borderRadius" (cu "1")
          ∷ prop "background" s.win
          ∷ prop "boxShadow" (tpl (codes "inset 0 0 0 " ∷ cu "0.3" ∷ codes " " ∷ s.border ∷ []))
          ∷ prop "display" (codes "flex")
          ∷ prop "alignItems" (codes "center")
          ∷ prop "gap" (cu "1.4")
          ∷ prop "padding" (tpl (codes "0 " ∷ cu "1.6" ∷ []))
          ∷ [])
        ∷ [])
      (together (
        el "span"
          (style (
              prop "width" (cu "2.6")
              ∷ prop "height" (cu "2.6")
              ∷ prop "borderRadius" (cu "0.6")
              ∷ prop "boxShadow" (tpl (codes "inset 0 0 0 " ∷ cu "0.3" ∷ codes " " ∷ s.border ∷ []))
              ∷ prop "flex" (codes "none")
              ∷ [])
            ∷ [])
          ([])
        ∷ el "span"
            (style (
                prop "height" (cu "1.3")
                ∷ prop "width" (tpl (codes w ∷ codes "%" ∷ []))
                ∷ prop "borderRadius" (cu "0.7")
                ∷ prop "background" s.soft
                ∷ [])
              ∷ [])
            ([])
        ∷ []))

unfoldable pub bleskos_group : Surfaces → String → List String → Html
unfolding bleskos_label bleskos_button
bleskos_group s label_w widths =
    el "div"
      (style (
          prop "display" (codes "flex")
          ∷ prop "flexDirection" (codes "column")
          ∷ prop "gap" (cu "1.2")
          ∷ [])
        ∷ [])
      (together (
        bleskos_label s label_w
        ∷ el "div"
            (style (
                prop "display" (codes "flex")
                ∷ prop "flexDirection" (codes "column")
                ∷ prop "gap" (cu "1.3")
                ∷ [])
              ∷ [])
            (flat_map (λ (w : String). bleskos_button s w) widths)
        ∷ []))

unfoldable pub bleskos_view : Text → Html
unfolding bleskos_group bleskos_label
bleskos_view on_color =
    let s = chrome_surfaces on_color in
    el "div"
      (test_id (codes "chrome-bleskos")
        ∷ style (
            prop "position" (codes "absolute")
            ∷ prop "inset" (codes "0")
            ∷ prop "padding" (tpl (cu "3" ∷ codes " " ∷ cu "4.5" ∷ codes " " ∷ cu "8.5" ∷ []))
            ∷ prop "display" (codes "flex")
            ∷ prop "flexDirection" (codes "column")
            ∷ [])
        ∷ [])
      (together (
        bleskos_label s ("26")
        ∷ el "div"
            (style (
                prop "display" (codes "flex")
                ∷ prop "gap" (cu "5.5")
                ∷ prop "marginTop" (cu "2.6")
                ∷ prop "flex" (codes "1")
                ∷ [])
              ∷ [])
            (together (
              el "div"
                (style (
                    prop "flex" (codes "1")
                    ∷ prop "display" (codes "flex")
                    ∷ prop "flexDirection" (codes "column")
                    ∷ prop "gap" (cu "2.6")
                    ∷ [])
                  ∷ [])
                (together (
                  bleskos_group s ("11") ("58" ∷ "66" ∷ "54" ∷ "72" ∷ [])
                  ∷ bleskos_group s ("9") ("50" ∷ "78" ∷ "44" ∷ [])
                  ∷ []))
              ∷ el "div"
                  (style (
                      prop "flex" (codes "1")
                      ∷ prop "display" (codes "flex")
                      ∷ prop "flexDirection" (codes "column")
                      ∷ [])
                    ∷ [])
                  (bleskos_group s ("20") ("70" ∷ "46" ∷ "82" ∷ "60" ∷ []))
              ∷ []))
        ∷ el "div"
            (style (
                prop "display" (codes "flex")
                ∷ prop "justifyContent" (codes "flex-end")
                ∷ prop "alignItems" (codes "flex-end")
                ∷ prop "marginTop" (cu "1.6")
                ∷ [])
              ∷ [])
            (bleskos_label s ("28"))
        ∷ []))
