-- ===== src/Detail/Total.antt =====
-- Every system of a catalog that can be built has a page.
use desktopcolors.Common.{
  List, [], ◌∷◌, map, Option, none, some, Bool, true, ◌≡◌, refl, sym, ap, ◌∙◌, subst, Text, text_eq,
  text_eq_iff, find?, if◌then◌else◌, All, All-map, Any, Dict, Option-cases, Bool-cases, inl, inr,
}
use desktopcolors.Content.{DesktopStyle}
use desktopcolors.Color.Floats.{Floats}
use desktopcolors.Color.Spaces.{RalColor, closest_ral, nearest_from, hex_to_oklab, oklab_distance}
use desktopcolors.Scores.{Scores}
use desktopcolors.Catalog.Defs.{returns, Catalog, OsView, ColorView, last_with, build_catalog}
use desktopcolors.Catalog.Laws.{built-IsWhole}
use desktopcolors.Derive.Defs.{OsEntry, map_option, cons_option}
use desktopcolors.Derive.Peers.{HasColors, era_peers_total}
use desktopcolors.ColorCatalog.Platforms.{Platform, build_platforms_by_hex}
use desktopcolors.Detail.Defs.{OsDetailView, DetailColor}
use desktopcolors.Detail.Build.{
  detail_color, detail_of, page, detail_view, closest_ral_design, add_styles, build_os_detail,
}

map_option-total :
    {A B : Type 0} (f : A → Option B) (xs : List A)
    → ((x : A) → (y : B) × (f x ≡ some y))
    → (ys : List B) × (map_option f xs ≡ some ys)
unfolding map_option cons_option
map_option-total f [] h = ([], refl)
map_option-total f (x ∷ xs) h =
    let (y, e) = h x in
    let (ys, es) = map_option-total f xs h in (y ∷ ys, λ i. cons_option (e i) (es i))

find?-total :
    (slug : Text) (es : List OsEntry)
    → Any (λ e. text_eq e.slug slug ≡ true) es
    → (e : OsEntry) × (find? (λ e. text_eq e.slug slug) es ≡ some e)
find?-total slug [] h = elim h [ ]
find?-total slug (e ∷ es) h = elim (Bool-cases (text_eq e.slug slug)) [
  | inl t ↦ (e, rw t refl)
  | inr t ↦ elim h [ inl s ↦ cc (s, t) | inr r ↦ rw t (find?-total slug es r) ]
]

last_with-later :
    (slug : Text) (o later : OsView) (os : List OsView)
    → last_with slug os ≡ some later
    → last_with slug (o ∷ os) ≡ some later
unfolding last_with
last_with-later slug o later os h = rw (h, last_with) refl

last_with-last :
    (slug : Text) (o : OsView) (os : List OsView)
    → last_with slug os ≡ none
    → last_with slug (o ∷ os) ≡ (if text_eq o.slug slug then some o else none)
unfolding last_with
last_with-last slug o os h = rw (h, last_with) refl

last_with-slug :
    (slug : Text) (os : List OsView) (o : OsView)
    → last_with slug os ≡ some o
    → text_eq o.slug slug ≡ true
unfolding last_with
last_with-slug slug [] o h = cc h
last_with-slug slug (p ∷ os) o h = elim (Option-cases (last_with slug os)) [
  | inr (later, e) ↦
      let same : later ≡ o = cc (h, last_with-later slug p later os e) in
      last_with-slug slug os o (e ∙ ap some same)
  | inl e ↦
      let last = last_with-last slug p os e in
      elim (Bool-cases (text_eq p.slug slug)) [
        | inl t ↦
            let same : p ≡ o = cc (h, rw t at last) in
            subst (λ x. text_eq x.slug slug ≡ true) same t
        | inr t ↦ cc (h, rw t at last)
      ]
]

last_with-total :
    (slug : Text) (os : List OsView)
    → Any (λ k. text_eq k slug ≡ true) (map (λ o. o.slug) os)
    → (o : OsView) × (last_with slug os ≡ some o) × (text_eq o.slug slug ≡ true)
last_with-total slug [] h = elim h [ ]
last_with-total slug (o ∷ os) h = elim (Option-cases (last_with slug os)) [
  | inr (later, e) ↦ (later, last_with-later slug o later os e, last_with-slug slug os later e)
  | inl e ↦ elim h [
    | inl t ↦ (o, last_with-last slug o os e ∙ rw t refl, t)
    | inr r ↦ let (later, found, _) = last_with-total slug os r in cc (e, found)
  ]
]

Any-slug :
    (slug : Text) (es : List OsEntry)
    → Any (λ e. text_eq e.slug slug ≡ true) es
    → Any (λ k. text_eq k slug ≡ true) (map (λ e. e.slug) es)
Any-slug slug [] h = h
Any-slug slug (e ∷ es) h = elim h [ inl t ↦ inl t | inr r ↦ inr (Any-slug slug es r) ]

module _ (fl : Floats) where
  nearest_from-total :
      (target : fl.F × fl.F × fl.F) (palette : List RalColor) (d : fl.F) (best : RalColor)
      → (r : RalColor) × (nearest_from fl target palette d (some best) ≡ some r)
  unfolding nearest_from
  nearest_from-total target [] d best = (best, refl)
  nearest_from-total target (ral ∷ palette) d best =
      elim (Bool-cases (fl.lt (oklab_distance fl target (hex_to_oklab fl ral.hex)) d)) [
        | inl e ↦ rw e (nearest_from-total target palette _ ral)
        | inr e ↦ rw e (nearest_from-total target palette d best)
      ]

  closest_ral-total :
      (hex : Text) (r : RalColor) (rs : List RalColor)
      → (best : RalColor) × (closest_ral fl hex (r ∷ rs) ≡ some best)
  unfolding closest_ral
  closest_ral-total hex r rs = nearest_from-total (hex_to_oklab fl hex) (r ∷ rs) fl.infinity r

  module _ (name_before : Text → Text → Bool) (entries : List OsEntry) (scores : Scores) where
    module _ (classic plus : RalColor) (rs qs : List RalColor) where
      detail_color-total :
          (slug : Text) (by_hex : Dict (List Platform)) (styles : Dict DesktopStyle) (c : ColorView)
          → (d : DetailColor fl.F) × (detail_color fl
                (classic ∷ rs)
                (plus ∷ qs)
                name_before
                entries
                slug
                by_hex
                styles
                c
              ≡ some d)
      unfolding detail_color closest_ral_design
      detail_color-total slug by_hex styles c =
          let (r, e) = closest_ral-total c.hex classic rs in
          let (q, f) = closest_ral-total c.hex plus qs in
          (
            detail_of fl entries slug by_hex styles c r q,
            rw (e, detail_color) (rw (f, closest_ral_design) refl),
          )

      detail_view-total :
          (catalog : Catalog) (slug : Text) (os : OsView) (entry : OsEntry)
          → All HasColors entries
          → (view : OsDetailView fl.F) × (detail_view fl
                (classic ∷ rs)
                (plus ∷ qs)
                name_before
                entries
                catalog
                slug
                os
                entry
              ≡ returns view)
            × (view.os ≡ os)
      unfolding detail_view
      detail_view-total catalog slug os entry h =
          let by_hex = build_platforms_by_hex name_before catalog in
          let styles = add_styles catalog.os_list [] in
          let (colors, e) = map_option-total _ os.colors (detail_color-total slug by_hex styles) in
          let (peers, f, _, _) = era_peers_total entry entries 3 h in
          (page fl os colors peers, rw (e, detail_view) (rw (f, detail_view) refl), refl)

      -- Where a catalog is built from the entries, and the two palettes are not empty, the page of each
      -- slug of an entry is built: `buildOsDetail` does not throw, and its system has the slug.
      pub build_os_detail_total :
          (catalog : Catalog)
          → build_catalog fl entries scores ≡ returns catalog
          → (slug : Text) → Any (λ e. text_eq e.slug slug ≡ true) entries
          → (view : OsDetailView fl.F) × (build_os_detail fl
                (classic ∷ rs)
                (plus ∷ qs)
                name_before
                entries
                catalog
                slug
              ≡ returns view)
            × (view.os.slug ≡ slug)
      unfolding build_os_detail
      build_os_detail_total catalog h slug among =
          let (whole, slugs) = built-IsWhole fl entries scores catalog h in
          let listed =
            subst (Any (λ k. text_eq k slug ≡ true)) (sym slugs) (Any-slug slug entries among) in
          let (os, found, t) = last_with-total slug catalog.os_list listed in
          let (entry, f) = find?-total slug entries among in
          let (view, e, its) =
            detail_view-total catalog slug os entry (All-map (λ x w. w.0) entries whole) in
          (
            view,
            rw (found, build_os_detail) (rw (f, build_os_detail) e),
            ap (λ o. o.slug) its ∙ (text_eq_iff os.slug slug).0 t,
          )
