-- ===== src/Widgets/TimelineView.antt =====
-- The markup of islands/KnownUsesTimeline.tsx.
use desktopcolors.Common.{
  ℕ, ◌+◌, ◌-◌, ◌==◌, List, [], ◌∷◌, ◌++◌, Bool, true, false, Text, codes, show, if◌then◌else◌,
  length, leb,
}
use desktopcolors.Color.Floats.{Floats}
use desktopcolors.Catalog.{color_path}
use desktopcolors.ColorCatalog.Platforms.{Platform}
use desktopcolors.Preview.Html.{
  Html, el, txt, together, flat_map, href, attr, tpl, styled, span_of, div_of,
}
use desktopcolors.Widgets.Timeline.{
  Timeline, is_current, tick_active, row_active, max_y, min_y, span, count_label, tally_rest,
  tick_size,
}

-- `shown && <span style=...>label</span>`
abbrev pub badge : Bool → Text → Text → Html
badge true s label = span_of s (txt label ∷ [])
badge false s label = []

unfoldable pub header : Text → Html
header label =
    div_of
      (codes
        "display: flex; align-items: baseline; justify-content: space-between; margin-bottom: 4px;")
      (span_of (codes "font: 400 9px var(--font-mono); color: var(--faint); letter-spacing: 1.5px;")
          (txt (codes "KNOWN USES") ∷ [])
        ∷ span_of (codes "font: 500 10px var(--font-mono); color: var(--faint);") (txt label ∷ [])
        ∷ [])

unfoldable pub box : Text → Html → Html
unfolding header
box label inner =
    div_of (codes "border: 1px solid var(--card-border); border-radius: 10px; overflow: hidden;")
      (div_of (codes "padding: 12px 14px 14px;") (header label ∷ inner ∷ []) ∷ [])

abbrev accent : Text
accent = codes "var(--accent)"

abbrev accent_strong : Text
accent_strong = codes "var(--accent-strong)"

module _ (fl : Floats) (first : Platform) (rest : List Platform) (hex current_slug : Text)
    (st : Timeline) where
  open fl use {num, sub, mul, div}

  unfoldable pub tick : Platform → Html
  unfolding tick_active is_current tick_size
  tick u =
      let active = tick_active st u in
      let cur = is_current current_slug u in
      let size = num (tick_size first rest st current_slug u) in
      let bg = if cur then accent_strong else accent in
      let ring =
        if active
        then codes "box-shadow: 0 0 0 3px var(--accent-tint);"
        else if cur
        then codes "box-shadow: 0 0 0 3px var(--accent-tint);"
        else codes "opacity: 0.8;" in
      span_of
        (tpl (
          codes "position: absolute; top: "
          ∷ fl.show (sub (num 12) (div size (num 2)))
          ∷ codes "px; left: "
          ∷ fl.show (mul (div (num (u.year - min_y first rest)) (num (span first rest))) (num 100))
          ∷ codes "%; width: "
          ∷ fl.show size
          ∷ codes "px; height: "
          ∷ fl.show size
          ∷ codes "px; border-radius: 50%; background: "
          ∷ bg
          ∷ codes
              "; transform: translateX(-50%); cursor: pointer; transition: width .12s, height .12s; z-index: "
          ∷ (if active then codes "2" else codes "1")
          ∷ codes "; "
          ∷ ring
          ∷ []))
        []

  unfoldable pub dot_style : Bool → Bool → Text
  dot_style cur active =
      if cur
      then tpl (
          codes "width: 11px; height: 11px; border-radius: 50%; background: "
          ∷ accent_strong
          ∷ codes "; box-shadow: 0 0 0 3px var(--accent-tint); position: relative; z-index: 1;"
          ∷ [])
      else tpl (
          codes "width: 9px; height: 9px; border-radius: 50%; background: "
          ∷ (if active then accent else codes "var(--panel)")
          ∷ codes "; box-shadow: inset 0 0 0 2px "
          ∷ accent
          ∷ codes "; position: relative; z-index: 1;"
          ∷ [])

  unfoldable pub line_style : Bool → Bool → Text
  line_style is_first is_last =
      codes
        "position: absolute; left: 50%; width: 2px; background: var(--hairline); transform: translateX(-50%);"
      ++ (if is_first
          then codes "top: 50%; bottom: -7px;"
          else if is_last
          then codes "top: -7px; height: 50%;"
          else codes "top: -7px; bottom: -7px;")

  unfoldable pub row_style : Bool → Bool → Text
  row_style cur active = tpl (
      codes
        "text-decoration: none; display: grid; grid-template-columns: 16px 1fr auto; align-items: center; gap: 10px; padding: 7px 6px; margin: 0 -6px; border-radius: 7px; cursor: "
      ∷ (if cur then codes "default" else codes "pointer")
      ∷ codes "; "
      ∷ (if active then codes "background: var(--accent-tint);" else [])
      ∷ [])

  unfoldable pub rail : Bool → Bool → Bool → Bool → Html
  unfolding dot_style line_style
  rail cur active is_first is_last =
      span_of
        (codes
          "justify-self: center; position: relative; width: 16px; display: flex; justify-content: center;")
        (span_of (line_style is_first is_last) [] ∷ span_of (dot_style cur active) [] ∷ [])

  unfoldable pub meta : Platform → Bool → Html
  meta u is_first = span_of (codes "display: inline-flex; align-items: center; gap: 6px;") (
      badge is_first
        (codes
          "font: 600 8px var(--font-mono); letter-spacing: 1px; color: var(--muted); background: var(--hairline); padding: 2px 5px; border-radius: 4px;")
        (codes "FIRST")
      ∷ badge u.is_default
          (codes
            "font: 600 8px var(--font-ui); letter-spacing: 0.5px; color: var(--accent-strong); background: var(--accent-tint); padding: 2px 6px; border-radius: 999px;")
          (codes "DEFAULT")
      ∷ span_of (codes "font: 500 12px var(--font-mono); color: var(--faint);")
          (txt (show u.year) ∷ [])
      ∷ [])

  -- a row is a link, but for the system of the page
  abbrev pub row_tag : Bool → Platform → Text → List Html → Html
  row_tag true u s inner = div_of s inner
  row_tag false u s inner =
      el "a" (href (color_path u.slug hex) ∷ attr "style" s ∷ []) (together inner)

  unfoldable pub use_row : ℕ → Platform → Html
  unfolding rail meta row_style is_current row_active
  use_row i u =
      let active = row_active st u i in
      let cur = is_current current_slug u in
      let is_first = i == 0 in
      let name_style = tpl (
        codes "font: 500 13px var(--font-ui); color: "
        ∷ (if cur then codes "var(--accent-strong)" else codes "var(--ink)")
        ∷ codes ";"
        ∷ []) in
      row_tag cur u (row_style cur active) (
        rail cur active is_first (i == length rest)
        ∷ span_of name_style (txt u.name ∷ [])
        ∷ meta u is_first
        ∷ [])

  unfoldable pub use_rows : ℕ → List Platform → Html
  unfolding use_row
  use_rows i [] = []
  use_rows i (u ∷ us) = use_row i u ++ use_rows (i + 1) us

  unfoldable pub timeline_line : Html
  unfolding tick max_y
  timeline_line = div_of (codes "position: relative; height: 24px; margin: 8px 3px 12px;") (
      div_of
        (codes
          "position: absolute; top: 11px; left: 0; right: 0; height: 2px; background: var(--card-border);")
        []
      ∷ flat_map tick (first ∷ rest)
      ∷ span_of
          (codes
            "position: absolute; top: 16px; left: 0; font: 400 9px var(--font-mono); color: var(--faint);")
          (txt (show (min_y first rest)) ∷ [])
      ∷ span_of
          (codes
            "position: absolute; top: 16px; right: 0; font: 400 9px var(--font-mono); color: var(--faint);")
          (txt (show (max_y first rest)) ∷ [])
      ∷ [])

  unfoldable pub tally : Html
  unfolding tally_rest
  tally = div_of (codes "font: 400 12.5px var(--font-ui); color: var(--muted); line-height: 1.5;") (
      txt (codes "First in ")
      ∷ el "strong" [] (txt first.name)
      ∷ txt (codes ", ")
      ∷ txt (show (min_y first rest))
      ∷ txt (codes ". ")
      ∷ txt (tally_rest first rest)
      ∷ [])

  -- the link that opens the list has no address
  unfoldable pub list_toggle : Html
  list_toggle =
      styled "a"
        (codes
          "display: inline-block; margin-top: 11px; font: 500 11px var(--font-mono); color: var(--accent-strong); cursor: pointer;")
        ((if st.expanded
            then txt (codes "Hide palettes")
            else txt
                (tpl (codes "View all " ∷ show (length (first ∷ rest)) ∷ codes " palettes →" ∷ [])))
          ∷ [])

  -- `expanded && ...`
  abbrev pub rows_if : Bool → Html
  rows_if true =
      div_of (codes "border-top: 1px solid var(--hairline); margin-top: 13px; padding-top: 5px;")
        (use_rows 0 (first ∷ rest) ∷ [])
  rows_if false = []

  abbrev pub several : List Html
  several = timeline_line ∷ tally ∷ list_toggle ∷ rows_if st.expanded ∷ []

  -- what is shown for one use, and for several
  abbrev pub body_if : Bool → Html
  body_if true =
      div_of (codes "font: 400 12.5px var(--font-ui); color: var(--muted);")
        (txt (codes "Only in this palette so far.") ∷ [])
  body_if false = together several

  unfoldable pub known_uses_timeline : Html
  unfolding box use_rows timeline_line tally list_toggle count_label
  known_uses_timeline = box (count_label first rest) (body_if (leb (length (first ∷ rest)) 1))
