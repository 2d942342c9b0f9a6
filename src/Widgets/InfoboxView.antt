-- ===== src/Widgets/InfoboxView.antt =====
-- The markup of islands/ColorInfobox.tsx, and where its links lead.
use mathlib.Core.List.{append-nil}
use desktopcolors.Common.{
  List, [], ◌∷◌, ◌++◌, map, Option, none, some, Bool, false, ◌≡◌, refl, ◌∙◌, Text, codes, show,
  text_eq, if◌then◌else◌, Bool-cases, inl, inr,
}
use desktopcolors.Color.Floats.{Floats}
use desktopcolors.Catalog.{color_path}
use desktopcolors.ColorCatalog.Platforms.{Platform}
use desktopcolors.Preview.Html.{
  Html, el, txt, together, flat_map, href, attr, test_id, tpl, styled, span_of, div_of,
}
use desktopcolors.Widgets.Anchors.{hrefs, hrefs-append, hrefs-el, links_inside, links_nested}
use desktopcolors.Widgets.Infobox.{
  InfoboxColor, Row, rows, to_upper_case, count_label, default_label,
}
use desktopcolors.Widgets.TimelineView.{badge}

pub data Variant : Type 0 where
  band flat : Variant

-- `actionBtns`
unfoldable pub action_buttons : Html
action_buttons = div_of (codes "display: flex; gap: 8px; flex: none;") (
    styled "button"
      (codes
        "border: 1px solid var(--field-border); cursor: pointer; background: #fff; color: var(--ink); font: 500 13px var(--font-ui); padding: 10px 15px; border-radius: 10px;")
      (txt (codes "⤢ Preview") ∷ [])
    ∷ styled "button"
        (codes
          "border: none; cursor: pointer; background: var(--ink); color: #fff; font: 500 13px var(--font-ui); padding: 11px 17px; border-radius: 10px;")
        (txt (codes "↓ Download") ∷ [])
    ∷ [])

-- `copied === row.key`
abbrev pub is_copied : Option Text → Text → Bool
is_copied none key = false
is_copied (some k) key = text_eq k key

unfoldable pub copy_button : Option Text → Row → Html
copy_button copied row =
    let now = is_copied copied row.key in
    el "button"
      (attr "type" (codes "button")
        ∷ test_id (codes "copy-" ++ row.key)
        ∷ attr "title" (codes "Copy " ++ row.label)
        ∷ attr "style" (
            codes
              "display: inline-flex; align-items: center; gap: 9px; border: 1px solid var(--card-border); border-radius: 8px; padding: 7px 11px; cursor: pointer; background: none; font: inherit; color: inherit; text-align: left;")
        ∷ [])
      (together (
        span_of (codes "font: 400 9px var(--font-mono); letter-spacing: 1px; color: var(--faint);")
          (txt row.label ∷ [])
        ∷ span_of (codes "font: 500 13px var(--font-mono); color: var(--ink);") (txt row.value ∷ [])
        ∷ span_of
            (tpl (
              codes "font: 500 10px var(--font-mono); width: 60px; text-align: right; color: "
              ∷ (if now then codes "var(--accent-strong)" else codes "#cbc7c1")
              ∷ codes ";"
              ∷ []))
            (txt (if now then codes "Copied ✓" else codes "Copy") ∷ [])
        ∷ []))

module _ (fl : Floats) (color : InfoboxColor fl) (platforms : List Platform) where
  abbrev shipped : Html
  shipped = together (
      txt (codes "Shipped by ")
      ∷ txt (count_label platforms)
      ∷ txt (codes " · ")
      ∷ txt (default_label platforms)
      ∷ [])

  abbrev head_style : Text
  head_style =
      codes
        "display: flex; align-items: center; justify-content: space-between; gap: 14px; margin-bottom: 14px; flex-wrap: wrap;"

  unfoldable pub box_head : Variant → Html
  unfolding action_buttons count_label default_label to_upper_case
  box_head band = div_of head_style (
      div_of (codes "display: flex; align-items: center; gap: 12px;") (
        div_of
          (tpl (
            codes "width: 40px; height: 40px; border-radius: 9px; background-color: "
            ∷ color.hex
            ∷ codes "; box-shadow: inset 0 0 0 1px rgba(0,0,0,0.12); flex: none;"
            ∷ []))
          []
        ∷ el "div" [] (
            together (
              div_of (codes "font: 500 15px var(--font-ui);") (
                txt color.name
                ∷ txt (codes " ")
                ∷ span_of (codes "font: 400 12px var(--font-mono); color: var(--faint);")
                    (txt (to_upper_case color.hex) ∷ [])
                ∷ [])
              ∷ div_of
                  (codes "font: 400 11px var(--font-mono); color: var(--faint); margin-top: 2px;")
                  (shipped ∷ [])
              ∷ []))
        ∷ [])
      ∷ action_buttons
      ∷ [])
  box_head flat = div_of head_style (
      div_of (codes "font: 400 11px var(--font-mono); color: var(--faint);") (shipped ∷ [])
      ∷ action_buttons
      ∷ [])

  unfoldable pub platform_link : Platform → Html
  platform_link p =
      el "a"
        (href (color_path p.slug color.hex)
          ∷ test_id (codes "infobox-platform")
          ∷ attr "style" (
              tpl (
                codes
                  "text-decoration: none; color: var(--ink); display: flex; align-items: center; gap: 10px; padding: 8px 11px; border-radius: 9px; border: 1px solid "
                ∷ (if p.is_default then codes "var(--accent)" else codes "var(--card-border)")
                ∷ codes "; background: "
                ∷ (if p.is_default then codes "var(--accent-tint)" else codes "var(--panel)")
                ∷ codes ";"
                ∷ []))
          ∷ [])
        (together (
          span_of
            (tpl (
              codes "width: 16px; height: 16px; border-radius: 4px; background-color: "
              ∷ color.hex
              ∷ codes "; box-shadow: inset 0 0 0 1px rgba(0,0,0,0.15); flex: none;"
              ∷ []))
            []
          ∷ span_of
              (codes
                "flex: 1; min-width: 0; font: 500 13px var(--font-ui); white-space: nowrap; overflow: hidden; text-overflow: ellipsis;")
              (txt p.name ∷ [])
          ∷ badge p.is_default
              (codes
                "flex: none; background: var(--accent-tint); color: var(--accent-strong); font: 600 8px var(--font-ui); letter-spacing: 0.5px; padding: 3px 7px; border-radius: 999px;")
              (codes "DEFAULT")
          ∷ span_of (codes "font: 500 11px var(--font-mono); color: var(--faint); flex: none;")
              (txt (show p.year) ∷ [])
          ∷ []))

  abbrev pub sections : Variant → Option Text → List Html
  sections variant copied =
      box_head variant
      ∷ div_of
          (codes
            "border: 1px solid var(--card-border); border-radius: 10px; overflow: hidden; background: #fff; margin-bottom: 14px;")
          (div_of
              (codes
                "font: 400 9px var(--font-mono); color: var(--faint); letter-spacing: 1.5px; padding: 9px 14px 6px;")
              (txt (codes "COLOR VALUES · CLICK TO COPY") ∷ [])
            ∷ div_of (codes "display: flex; flex-wrap: wrap; gap: 8px; padding: 6px 14px 14px;")
                (flat_map (copy_button copied) (rows fl color) ∷ [])
            ∷ [])
      ∷ div_of
          (codes
            "font: 400 9px var(--font-mono); color: var(--faint); letter-spacing: 1.5px; margin-bottom: 7px;")
          (txt (codes "SHIPPED ON THESE PLATFORMS") ∷ [])
      ∷ div_of
          (codes
            "display: grid; grid-template-columns: repeat(auto-fill, minmax(230px, 1fr)); gap: 8px;")
          (flat_map platform_link platforms ∷ [])
      ∷ []

  unfoldable pub color_infobox : Variant → Option Text → Html
  unfolding box_head copy_button platform_link rows
  color_infobox variant copied = el "div" [] (together (sections variant copied))

  head-plain : (variant : Variant) → hrefs (box_head variant) ≡ []
  unfolding box_head
  head-plain band = refl
  head-plain flat = refl

  buttons-plain :
      (copied : Option Text) (rs : List Row) → hrefs (flat_map (copy_button copied) rs) ≡ []
  unfolding copy_button
  buttons-plain copied [] = refl
  buttons-plain copied (r ∷ rs) = buttons-plain copied rs

  link-of : (p : Platform) → hrefs (platform_link p) ≡ color_path p.slug color.hex ∷ []
  unfolding platform_link
  link-of p = elim (Bool-cases p.is_default) [
    | inl e ↦ rw (e, platform_link) refl
    | inr e ↦ rw (e, platform_link) refl
  ]

  links-of :
      (ps : List Platform)
      → hrefs (flat_map platform_link ps) ≡ map (λ p. color_path p.slug color.hex) ps
  links-of [] = refl
  links-of (p ∷ ps) =
      hrefs-append (platform_link p) (flat_map platform_link ps)
      ∙ (λ i. link-of p i ++ links-of ps i)

  -- The box of a color links to the color's page on each system that ships it, and to nothing else, in both
  -- of its forms and whatever was copied.
  pub hrefs-color_infobox :
      (variant : Variant) (copied : Option Text)
      → hrefs (color_infobox variant copied) ≡ map (λ p. color_path p.slug color.hex) platforms
  unfolding color_infobox
  hrefs-color_infobox variant copied =
      hrefs-el "div" [] (sections variant copied)
      ∙ (λ i.
          head-plain variant i
          ++ ((links_nested "div" "div" (flat_map (copy_button copied) (rows fl color))
                  ∙ buttons-plain copied (rows fl color))
                i
              ++ ((links_inside "div" (flat_map platform_link platforms) ∙ links-of platforms) i
                  ++ [])))
      ∙ append-nil (map (λ p. color_path p.slug color.hex) platforms)
