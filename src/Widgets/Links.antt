-- ===== src/Widgets/Links.antt =====
-- Where the links of islands/KnownUsesTimeline.tsx lead.
use mathlib.Core.List.{append-nil}
use desktopcolors.Common.{
  ℕ, ◌+◌, ◌==◌, leb, List, [], ◌∷◌, ◌++◌, map, filter, Bool, true, false, not, ◌&&◌, ◌≡◌, refl, ap,
  ◌∙◌, Text, if◌then◌else◌, length, Bool-cases, inl, inr,
}
use desktopcolors.Color.Floats.{Floats}
use desktopcolors.Catalog.{color_path}
use desktopcolors.ColorCatalog.Platforms.{Platform}
use desktopcolors.Preview.Html.{Html, together, flat_map, attr, href}
use desktopcolors.Widgets.Timeline.{Timeline, is_current, count_label}
use desktopcolors.Widgets.TimelineView.{
  box, tick, timeline_line, tally, list_toggle, rows_if, several, body_if, row_tag, meta, use_row,
  use_rows, known_uses_timeline,
}
use desktopcolors.Widgets.Anchors.{
  hrefs, hrefs-together, hrefs_all, hrefs-append, hrefs-el, links_inside, links_nested,
}

if-and : (b : Bool) (urls : List Text) → (if b then urls else []) ≡ (if b && true then urls else [])
if-and true urls = refl
if-and false urls = refl

box-links : (label : Text) (inner : Html) → hrefs (box label inner) ≡ hrefs inner
unfolding box
box-links label inner = links_nested "div" "div" inner

module _ (fl : Floats) (first : Platform) (rest : List Platform) (hex current_slug : Text)
    (st : Timeline) where
  -- the pages of the color on the other systems
  abbrev pub other_pages : List Platform → List Text
  other_pages us =
      map (λ u. color_path u.slug hex) (filter (λ u. not (is_current current_slug u)) us)

  joined :
      (u : Platform) (us : List Platform)
      → map (λ v. color_path v.slug hex) (if is_current current_slug u then [] else u ∷ [])
          ++ other_pages us
        ≡ other_pages (u ∷ us)
  joined u us = elim (Bool-cases (is_current current_slug u)) [
    | inl e ↦ rw e refl
    | inr e ↦ rw e refl
  ]

  ticks_skip :
      (us : List Platform) (h t : Html)
      → hrefs ((flat_map (tick fl first rest hex current_slug st) us ++ h) ++ t) ≡ hrefs (h ++ t)
  unfolding tick
  ticks_skip [] h t = refl
  ticks_skip (u ∷ us) h t = ticks_skip us h t

  row-links :
      (cur : Bool) (u : Platform) (s : Text) (hs : List Html)
      → hrefs_all hs ≡ []
      → hrefs (row_tag fl first rest hex current_slug st cur u s hs)
        ≡ map (λ v. color_path v.slug hex) (if cur then [] else u ∷ [])
  row-links true u s hs h = hrefs-el "div" (attr "style" s ∷ []) hs ∙ h
  row-links false u s hs h =
      hrefs-el "a" (href (color_path u.slug hex) ∷ attr "style" s ∷ []) hs
      ∙ ap (λ l. color_path u.slug hex ∷ l) h

  meta-plain : (u : Platform) (b : Bool) → hrefs (meta fl first rest hex current_slug st u b) ≡ []
  unfolding meta
  meta-plain u true = elim (Bool-cases u.is_default) [
    | inl e ↦ rw (e, meta) refl
    | inr e ↦ rw (e, meta) refl
  ]
  meta-plain u false = elim (Bool-cases u.is_default) [
    | inl e ↦ rw (e, meta) refl
    | inr e ↦ rw (e, meta) refl
  ]

  hrefs-use_row :
      (i : ℕ) (u : Platform)
      → hrefs (use_row fl first rest hex current_slug st i u)
        ≡ map (λ v. color_path v.slug hex) (if is_current current_slug u then [] else u ∷ [])
  unfolding use_row
  hrefs-use_row i u =
      row-links (is_current current_slug u) u _ _ (ap (λ l. l ++ []) (meta-plain u (i == 0)))

  hrefs-use_rows :
      (i : ℕ) (us : List Platform)
      → hrefs (use_rows fl first rest hex current_slug st i us) ≡ other_pages us
  unfolding use_rows
  hrefs-use_rows i [] = refl
  hrefs-use_rows i (u ∷ us) =
      hrefs-append (use_row fl first rest hex current_slug st i u)
        (use_rows fl first rest hex current_slug st (i + 1) us)
      ∙ (λ j. hrefs-use_row i u j ++ hrefs-use_rows (i + 1) us j)
      ∙ joined u us

  line-plain : hrefs (timeline_line fl first rest hex current_slug st) ≡ []
  unfolding timeline_line
  line-plain = ticks_skip rest _ _

  tally-plain : hrefs (tally fl first rest hex current_slug st) ≡ []
  unfolding tally
  tally-plain = refl

  toggle-plain : hrefs (list_toggle fl first rest hex current_slug st) ≡ []
  unfolding list_toggle
  toggle-plain = elim (Bool-cases st.expanded) [
    | inl e ↦ rw (e, list_toggle) refl
    | inr e ↦ rw (e, list_toggle) refl
  ]

  rows_if-links :
      (b : Bool)
      → hrefs (rows_if fl first rest hex current_slug st b)
        ≡ (if b then other_pages (first ∷ rest) else [])
  rows_if-links false = refl
  rows_if-links true =
      links_inside "div" (use_rows fl first rest hex current_slug st 0 (first ∷ rest))
      ∙ hrefs-use_rows 0 (first ∷ rest)

  several-links :
      hrefs (together (several fl first rest hex current_slug st))
      ≡ (if st.expanded then other_pages (first ∷ rest) else [])
  several-links =
      hrefs-together (several fl first rest hex current_slug st)
      ∙ (λ i.
          line-plain i
          ++ (tally-plain i ++ (toggle-plain i ++ (rows_if-links st.expanded i ++ []))))
      ∙ append-nil (if st.expanded then other_pages (first ∷ rest) else [])

  body-links :
      (b : Bool)
      → hrefs (body_if fl first rest hex current_slug st b)
        ≡ (if st.expanded && not b then other_pages (first ∷ rest) else [])
  body-links true = elim (Bool-cases st.expanded) [ inl e ↦ rw e refl | inr e ↦ rw e refl ]
  body-links false = several-links ∙ if-and st.expanded (other_pages (first ∷ rest))

  -- The timeline of a color's uses links to the color's page on each of the other systems, in their order,
  -- where its list is open and there is more than one use, and to nothing else.
  pub hrefs-known_uses_timeline : hrefs (known_uses_timeline fl first rest hex current_slug st) ≡ (
      if st.expanded && not (leb (length (first ∷ rest)) 1) then other_pages (first ∷ rest) else [])
  unfolding known_uses_timeline
  hrefs-known_uses_timeline =
      let one = leb (length (first ∷ rest)) 1 in
      box-links (count_label first rest) (body_if fl first rest hex current_slug st one)
      ∙ body-links one
