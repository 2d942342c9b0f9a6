-- ===== src/Catalog/Laws.antt =====
-- When the catalog can be built, and what it lists.
use desktopcolors.Common.{
  ℕ, List, [], ◌∷◌, map, Option, none, some, codes, ◌≡◌, ◌⊎◌, refl, sym, ap, subst, ◌∙◌, Text,
  text_eq, text_eq_iff, All, Any, Option-cases, Bool-cases, inl, inr,
}
use desktopcolors.Color.Floats.{Floats}
use desktopcolors.Derive.Defs.{OsEntry, default_color, merge_colors_by_hex}
use desktopcolors.Derive.Peers.{HasColors, default_color_total, default_color_inv}
use desktopcolors.Scores.{Scores}
use desktopcolors.Catalog.Defs.{
  Outcome, returns, throws, unresolved, OsRef, OsView, Catalog, entry_of, ref_of, make_view,
  os_view, os_views, merged_view, build_catalog,
}

-- a reference that is absent, empty, or the slug of an entry
abbrev pub Resolves : List OsEntry → Option Text → Type 0
Resolves entries none = Unit
Resolves entries (some []) = Unit
Resolves entries (some (c ∷ s)) = Any (λ e. e.slug ≡ c ∷ s) entries

-- what a view says of a reference: the slug, with the name and the year of an entry that has it
abbrev pub RefersTo : List OsEntry → Option Text → Option OsRef → Type 0
RefersTo entries none r = r ≡ none
RefersTo entries (some []) r = r ≡ none
RefersTo entries (some (c ∷ s)) none = ⊥
RefersTo entries (some (c ∷ s)) (some r) =
    (r.slug ≡ c ∷ s)
    × Any (λ e. (e.slug ≡ c ∷ s) × (r.name ≡ e.os.name) × (r.year ≡ e.os.year)) entries

-- an entry that can be shown: it has a color, and its references lead to entries
abbrev pub IsWhole : List OsEntry → OsEntry → Type 0
IsWhole entries e =
    HasColors e × Resolves entries e.os.predecessor × Resolves entries e.os.successor

-- an entry that is found has the slug, and one is found where there is any
entry_of-some :
    (slug : Text) (es : List OsEntry) (t : OsEntry)
    → entry_of slug es ≡ some t
    → Any (λ e. (e.slug ≡ slug) × (t.os.name ≡ e.os.name) × (t.os.year ≡ e.os.year)) es
unfolding entry_of
entry_of-some slug [] t h = cc h
entry_of-some slug (e ∷ es) t h = elim (Option-cases (entry_of slug es)) [
  | inr (u, later) ↦
      let same : u ≡ t = cc (rw (later, entry_of) at h) in
      inr (entry_of-some slug es t (later ∙ ap some same))
  | inl n ↦ elim (Bool-cases (text_eq e.slug slug)) [
    | inl eq ↦
        let k : ◌≡◌ {A = Option OsEntry} (some e) (some t) = rw (n, eq, entry_of) at h in
        let same : e ≡ t = cc k in
        inl (
          (text_eq_iff e.slug slug).0 eq,
          ap (λ x. x.os.name) (sym same),
          ap (λ x. x.os.year) (sym same),
        )
    | inr ne ↦ cc (rw (n, ne, entry_of) at h)
  ]
]

entry_of-none :
    (slug : Text) (es : List OsEntry) → entry_of slug es ≡ none → ¬ (Any (λ e. e.slug ≡ slug) es)
unfolding entry_of
entry_of-none slug [] h a = a
entry_of-none slug (e ∷ es) h a = elim (Option-cases (entry_of slug es)) [
  | inr (u, later) ↦ cc (rw (later, entry_of) at h)
  | inl n ↦ elim a [
    | inl eq ↦ cc (rw (n, (text_eq_iff e.slug slug).1 eq, entry_of) at h)
    | inr rest ↦ entry_of-none slug es n rest
  ]
]

Any-slug :
    (slug name : Text) (year : ℕ) (es : List OsEntry)
    → Any (λ e. (e.slug ≡ slug) × (name ≡ e.os.name) × (year ≡ e.os.year)) es
    → Any (λ e. e.slug ≡ slug) es
Any-slug slug name year [] h = h
Any-slug slug name year (e ∷ es) (inl h) = inl h.0
Any-slug slug name year (e ∷ es) (inr h) = inr (Any-slug slug name year es h)

-- what `f` does where `P` is to hold: it returns a value with `Q`, or throws because `P` fails
abbrev pub Decides {ℓ} : {A : Type ℓ} → Outcome A → Type 0 → (A → Type 0) → Type ℓ
Decides {A} m P Q =
    (P × ((a : A) × (m ≡ returns a) × Q a)) ⊎ ((¬ P) × ((message : Text) × (m ≡ throws message)))

module _ (entries : List OsEntry) (field from : Text) where
  ref_of_lem :
      (o : Option Text)
      → Decides (ref_of entries o field from) (Resolves entries o) (RefersTo entries o)
  unfolding ref_of
  ref_of_lem none = inl (tt, (none, refl, refl))
  ref_of_lem (some []) = inl (tt, (none, refl, refl))
  ref_of_lem (some (c ∷ s)) = elim (Option-cases (entry_of (c ∷ s) entries)) [
    | inl n ↦
        inr (entry_of-none (c ∷ s) entries n, (unresolved field (c ∷ s) from, rw (n, ref_of) refl))
    | inr (t, e) ↦
        let found = entry_of-some (c ∷ s) entries t e in
        inl (
          Any-slug (c ∷ s) t.os.name t.os.year entries found,
          (
            some (record { slug = c ∷ s; name = t.os.name; year = t.os.year }),
            rw (e, ref_of) refl,
            (refl, found),
          ),
        )
  ]

-- what a view shows of its entry
pub record Shows (entries : List OsEntry) (e : OsEntry) (o : OsView) : Type 0 where
  pub slug : o.slug ≡ e.slug
  pub predecessor : RefersTo entries e.os.predecessor o.predecessor
  pub successor : RefersTo entries e.os.successor o.successor

abbrev pub ShowsAll : List OsEntry → List OsEntry → List OsView → Type 0
ShowsAll entries [] [] = Unit
ShowsAll entries [] (o ∷ os) = ⊥
ShowsAll entries (e ∷ es) [] = ⊥
ShowsAll entries (e ∷ es) (o ∷ os) = Shows entries e o × ShowsAll entries es os

module _ (fl : Floats) (entries : List OsEntry) (scores : Scores) where
  os_view_lem :
      (e : OsEntry) → Decides (os_view fl entries scores e) (IsWhole entries e) (Shows entries e)
  unfolding os_view make_view
  os_view_lem e = elim (Option-cases (default_color e.os)) [
    | inl n ↦ inr (
      λ h. let (def, found) = default_color_total e.os h.0 in cc (n, found),
      (codes "Cannot read properties of undefined (reading 'hex')", rw (n, os_view) refl),
    )
    | inr (def, d) ↦ elim (ref_of_lem entries (codes "predecessor") e.slug e.os.predecessor) [
      | inr (lost, (message, thrown)) ↦
          inr (λ h. lost h.1, (message, rw (d, os_view) (rw thrown refl)))
      | inl (hp, (p, pe, pq)) ↦
          elim (ref_of_lem entries (codes "successor") e.slug e.os.successor) [
            | inr (lost, (message, thrown)) ↦
                inr (λ h. lost h.2, (message, rw (d, os_view) (rw pe (rw thrown refl))))
            | inl (hs, (s, se, sq)) ↦ inl (
              (default_color_inv e.os def d, hp, hs),
              (
                make_view fl scores e def p s,
                rw (d, os_view) (rw pe (rw se refl)),
                record { slug = refl; predecessor = pq; successor = sq },
              ),
            )
          ]
    ]
  ]

  os_views_lem :
      (es : List OsEntry)
      → Decides (os_views fl entries scores es) (All (IsWhole entries) es) (ShowsAll entries es)
  unfolding os_views
  os_views_lem [] = inl (tt, ([], refl, tt))
  os_views_lem (e ∷ es) = elim (os_view_lem e) [
    | inr (lost, (message, thrown)) ↦ inr (λ h. lost h.0, (message, rw (thrown, os_views) refl))
    | inl (whole, (o, made, shows)) ↦ elim (os_views_lem es) [
      | inr (lost, (message, thrown)) ↦
          inr (λ h. lost h.1, (message, rw (made, os_views) (rw thrown refl)))
      | inl (wholes, (os, rest, all_show)) ↦
          inl ((whole, wholes), (o ∷ os, rw (made, os_views) (rw rest refl), (shows, all_show)))
    ]
  ]

  -- Where every entry has a color, and each predecessor or successor that is named is the slug of an
  -- entry, the catalog is built: it has a view for each entry, in the order of the entries, with the
  -- name and the year of the systems it refers to. In all other cases the build throws an error.
  pub build_catalog_lem :
      ((All (IsWhole entries) entries)
        × ((catalog : Catalog) × (build_catalog fl entries scores ≡ returns catalog)
            × ShowsAll entries entries catalog.os_list))
      ⊎ ((¬ (All (IsWhole entries) entries))
          × ((message : Text) × (build_catalog fl entries scores ≡ throws message)))
  unfolding build_catalog
  build_catalog_lem = elim (os_views_lem entries) [
    | inr (lost, (message, thrown)) ↦ inr (lost, (message, rw (thrown, build_catalog) refl))
    | inl (whole, (os, made, shows)) ↦ inl (
      whole,
      (
        record {
          os_list = os;
          colors = map (merged_view fl scores) (merge_colors_by_hex fl entries);
        },
        rw (made, build_catalog) refl,
        shows,
      ),
    )
  ]

  ShowsAll-slugs :
      (es : List OsEntry) (os : List OsView)
      → ShowsAll entries es os
      → map (λ o. o.slug) os ≡ map (λ e. e.slug) es
  ShowsAll-slugs [] [] h = refl
  ShowsAll-slugs [] (o ∷ os) h = absurd h
  ShowsAll-slugs (e ∷ es) [] h = absurd h
  ShowsAll-slugs (e ∷ es) (o ∷ os) h =
      let slugs = ShowsAll-slugs es os h.1 in let slug = h.0.slug in λ i. slug i ∷ slugs i

  -- a catalog that is built is of whole entries, and lists their slugs
  pub built-IsWhole :
      (catalog : Catalog)
      → build_catalog fl entries scores ≡ returns catalog
      → All (IsWhole entries) entries
        × (map (λ o. o.slug) catalog.os_list ≡ map (λ e. e.slug) entries)
  built-IsWhole catalog h = elim build_catalog_lem [
    | inr (lost, (message, thrown)) ↦ cc (h, thrown)
    | inl (whole, (other, made, shows)) ↦
        let same : other ≡ catalog = cc (h, made) in
        (
          whole,
          subst (λ c. map (λ o. o.slug) c.os_list ≡ map (λ e. e.slug) entries) same
              (ShowsAll-slugs entries other.os_list shows),
        )
  ]
