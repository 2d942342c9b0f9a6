-- ===== src/ColorCatalog/Uses.antt =====
-- What `buildPlatformsByHex` lists under a hex.
use mathlib.Core.List.{append_assoc, append-nil, Perm}
use native.Mathlib.Decide.{dec_lt}
use desktopcolors.Common.{
  ℕ, ◌<◌, List, [], ◌∷◌, ◌++◌, Bool, true, false, ◌&&◌, ◌==◌, ◌≡◌, ◌⊎◌, refl, sym, ap, subst, ◌∙◌,
  arith, Text, text_eq, text_eq_iff, to_lower_case, get_or, if◌then◌else◌, filter, All, All-map,
  sort, IsSorted, IsWeakOrder, sort-IsSorted, sort-perm, sort_stable, All-unit, Dict, lookup,
  lookup-put, Bool-cases, inl, inr,
}
use desktopcolors.Catalog.{Catalog, OsView, ColorView}
use desktopcolors.ColorCatalog.Platforms.{
  Platform, platform, push_platform, add_colors, add_systems, sort_values, platform_before,
  build_platforms_by_hex,
}

-- The systems that ship a hex, straight from the catalog: one for each color with the hex, in the
-- order of the systems and of their colors.
unfoldable pub color_uses : Text → OsView → List ColorView → List Platform
color_uses k o [] = []
color_uses k o (c ∷ cs) =
    let rest = color_uses k o cs in
    if text_eq (to_lower_case c.hex) k then platform o c ∷ rest else rest

unfoldable pub uses : Text → List OsView → List Platform
unfolding color_uses
uses k [] = []
uses k (o ∷ os) = color_uses k o o.colors ++ uses k os

abbrev at_key : Text → Dict (List Platform) → List Platform
at_key k d = get_or (lookup k d) []

push_platform-at :
    (key k : Text) (p : Platform) (d : Dict (List Platform))
    → at_key k (push_platform key p d) ≡ at_key k d ++ (if text_eq key k then p ∷ [] else [])
unfolding push_platform
push_platform-at key k p d = elim (Bool-cases (text_eq key k)) [
  | inl h ↦ let same = (text_eq_iff key k).0 h in rw (lookup-put, h) (rw same refl)
  | inr h ↦ rw (lookup-put, h) (rw append-nil refl)
]

add_colors-at :
    (k : Text) (o : OsView) (cs : List ColorView) (d : Dict (List Platform))
    → at_key k (add_colors o cs d) ≡ at_key k d ++ color_uses k o cs
unfolding add_colors color_uses
add_colors-at k o [] d = rw append-nil refl
add_colors-at k o (c ∷ cs) d =
    add_colors-at k o cs (push_platform (to_lower_case c.hex) (platform o c) d)
    ∙ ap (λ l. l ++ color_uses k o cs) (push_platform-at (to_lower_case c.hex) k (platform o c) d)
    ∙ elim (Bool-cases (text_eq (to_lower_case c.hex) k)) [
      | inl h ↦ rw h (append_assoc (at_key k d) (platform o c ∷ []) (color_uses k o cs))
      | inr h ↦ rw h (append_assoc (at_key k d) [] (color_uses k o cs))
    ]

add_systems-at :
    (k : Text) (os : List OsView) (d : Dict (List Platform))
    → at_key k (add_systems os d) ≡ at_key k d ++ uses k os
unfolding add_systems uses
add_systems-at k [] d = rw append-nil refl
add_systems-at k (o ∷ os) d =
    add_systems-at k os (add_colors o o.colors d)
    ∙ ap (λ l. l ++ uses k os) (add_colors-at k o o.colors d)
    ∙ append_assoc (at_key k d) (color_uses k o o.colors) (uses k os)

sort_values-at :
    (lt : Platform → Platform → Bool) (k : Text) (d : Dict (List Platform))
    → at_key k (sort_values lt d) ≡ sort lt (at_key k d)
unfolding sort_values lookup sort
sort_values-at lt k [] = refl
sort_values-at lt k ((j, v) ∷ d) = elim (Bool-cases (text_eq j k)) [
  | inl h ↦ rw h refl
  | inr h ↦ rw h (sort_values-at lt k d)
]

and_true : (a : Bool) {b : Bool} → (a && b) ≡ true → (a ≡ true) × (b ≡ true)
and_true true h = (refl, h)
and_true false h = cc h

build_platforms_by_hex-at :
    (name_before : Text → Text → Bool) (catalog : Catalog) (k : Text)
    → get_or (lookup k (build_platforms_by_hex name_before catalog)) []
      ≡ sort (platform_before name_before) (uses k catalog.os_list)
unfolding build_platforms_by_hex lookup
build_platforms_by_hex-at name_before catalog k =
    sort_values-at (platform_before name_before) k (add_systems catalog.os_list [])
    ∙ ap (sort (platform_before name_before)) (add_systems-at k catalog.os_list [])

-- how `localeCompare` orders names: a strict order, of which only equal ranks are left open
abbrev pub IsNameOrder : (Text → Text → Bool) → Type 0
IsNameOrder = IsWeakOrder (λ name. Unit)

-- the years rise, and the names where the year is the same
abbrev pub IsChronological : (Text → Text → Bool) → List Platform → Type 0
IsChronological name_before [] = Unit
IsChronological name_before (p ∷ ps) =
    All (λ q. (p.year < q.year) ⊎ ((p.year ≡ q.year) × (name_before q.name p.name ≡ false))) ps
    × IsChronological name_before ps

abbrev pub is_named : ℕ → Text → Platform → Bool
is_named year name p = p.year == year && text_eq p.name name

module _ (name_before : Text → Text → Bool) (o : IsNameOrder name_before) where
  platform_before-IsWeakOrder : IsWeakOrder (λ p. Unit) (platform_before name_before)
  platform_before-IsWeakOrder = record {
    asymm = λ a b h. ground (arith, o.asymm a.name b.name);
    neg_trans = λ a b c _ h k. ground (arith, o.neg_trans a.name b.name c.name tt);
  }

  not_before :
      (p q : Platform)
      → platform_before name_before q p ≡ false
      → (p.year < q.year) ⊎ ((p.year ≡ q.year) × (name_before q.name p.name ≡ false))
  not_before p q h = elim (dec_lt p.year q.year) [
    | yes lt ↦ inl lt
    | no ge ↦ inr (ground (arith, ge), ground (arith, ge))
  ]

  IsChronological-of :
      (ps : List Platform)
      → IsSorted (platform_before name_before) ps
      → IsChronological name_before ps
  IsChronological-of [] h = tt
  IsChronological-of (p ∷ ps) h = (All-map (not_before p) ps h.0, IsChronological-of ps h.1)

  name_before_self : (name : Text) → name_before name name ≡ false
  name_before_self name = elim (Bool-cases (name_before name name)) [
    | inl e ↦ o.asymm name name e
    | inr e ↦ e
  ]

  same_named :
      (year : ℕ) (name : Text) (p q : Platform)
      → is_named year name p ≡ true
      → is_named year name q ≡ true
      → platform_before name_before p q ≡ false
  same_named year name p q h k =
      let (py, pn) = and_true (p.year == year) h in
      let (qy, qn) = and_true (q.year == year) k in
      let e = (text_eq_iff p.name name).0 pn ∙ sym ((text_eq_iff q.name name).0 qn) in
      let later : name_before p.name q.name ≡ false =
        subst (λ n. name_before p.name n ≡ false) e (name_before_self p.name) in
      ground arith

  -- Where `localeCompare` orders the names, the list under a hex holds the systems that ship it, one
  -- entry for each of their colors with the hex whatever the case of its letters, and no other. It
  -- goes by year, and by name where the year is the same; systems of one year and name keep the order
  -- of the catalog.
  pub build_platforms_by_hex_lem :
      (catalog : Catalog) (k : Text)
      → let shown = get_or (lookup k (build_platforms_by_hex name_before catalog)) [] in
        Perm shown (uses k catalog.os_list)
        × IsChronological name_before shown
        × ((year : ℕ) (name : Text)
            → filter (is_named year name) shown
              ≡ filter (is_named year name) (uses k catalog.os_list))
  build_platforms_by_hex_lem catalog k =
      let lt = platform_before name_before in
      let us = uses k catalog.os_list in
      rw (build_platforms_by_hex-at name_before catalog k) (
        sort-perm lt us,
        IsChronological-of (sort lt us)
            (sort-IsSorted (λ p. Unit) lt platform_before-IsWeakOrder us (All-unit us)),
        λ year name. sort_stable lt (is_named year name) us (same_named year name),
      )
