-- ===== src/Explorer/Toggles.antt =====
-- The handlers of islands/Colors.tsx that change the selection of systems, and the steps of the preview.
use desktopcolors.Common.{
  List, [], ◌∷◌, map, Option, none, some, Bool, true, false, not, ◌&&◌, ◌||◌, ◌≡◌, refl, sym, ap,
  ◌∙◌, arith, Text, text_eq, if◌then◌else◌, filter, all, is_empty, Dict, lookup, put, delete,
  lookup-put, lookup-delete, Bool-cases, Option-cases, inl, inr,
}
use desktopcolors.Color.Floats.{Floats}
use desktopcolors.ColorCatalog.Defs.{ColorEntry}
use desktopcolors.ColorCatalog.Platforms.{Platform, OsFamily}
use desktopcolors.ColorCatalog.Filters.{OsSelection}
use desktopcolors.Explorer.Defs.{Explorer, is_on, set_slugs, os_disabled, toggle_os_fam}

-- what a lookup says of a slug
abbrev found : Option (Unit {0}) → Bool
found none = false
found (some u) = true

is_on-found : (k : Text) (sel : OsSelection) → is_on k sel ≡ found (lookup k sel)
is_on-found k sel = elim (Option-cases (lookup k sel)) [
  | inl e ↦ rw (e, is_on) refl
  | inr (u, e) ↦ rw (e, is_on) refl
]

is_on-put :
    (slug k : Text) (sel : OsSelection)
    → is_on k (put slug tt sel) ≡ (if text_eq slug k then true else is_on k sel)
is_on-put slug k sel =
    is_on-found k (put slug tt sel)
    ∙ ap found (lookup-put slug k tt sel)
    ∙ elim (Bool-cases (text_eq slug k)) [
      | inl e ↦ rw e refl
      | inr e ↦ rw e (sym (is_on-found k sel))
    ]

is_on-delete :
    (slug k : Text) (sel : OsSelection)
    → is_on k (delete slug sel) ≡ (if text_eq slug k then false else is_on k sel)
is_on-delete slug k sel =
    is_on-found k (delete slug sel)
    ∙ ap found (lookup-delete slug k sel)
    ∙ elim (Bool-cases (text_eq slug k)) [
      | inl e ↦ rw e refl
      | inr e ↦ rw e (sym (is_on-found k sel))
    ]

-- the slug is one of the list
unfoldable pub is_listed : Text → List Text → Bool
is_listed k [] = false
is_listed k (x ∷ xs) = text_eq x k || is_listed k xs

-- what every slug of a list comes to
set_slugs-is_on :
    (all_on : Bool) (k : Text) (xs : List Text) (sel : OsSelection)
    → is_on k (set_slugs all_on xs sel) ≡ (if is_listed k xs then not all_on else is_on k sel)
unfolding set_slugs is_listed
set_slugs-is_on all_on k [] sel = refl
set_slugs-is_on true k (x ∷ xs) sel =
    set_slugs-is_on true k xs (delete x sel) ∙ ground (arith, is_on-delete x k sel)
set_slugs-is_on false k (x ∷ xs) sel =
    set_slugs-is_on false k xs (put x tt sel) ∙ ground (arith, is_on-put x k sel)

module _ (fl : Floats) (d : Dict (List Platform)) (colors : List (ColorEntry fl)) where
  -- the systems of a family that can be picked
  abbrev pub enabled_slugs : OsFamily → Explorer fl → List Text
  enabled_slugs f st = filter (λ s. not (os_disabled fl d colors st s)) (map (λ o. o.slug) f.oses)

  -- Picking a family acts on its enabled systems only: where all of them are selected it drops them all,
  -- and in every other case it selects them all; no other system changes.
  pub toggle_os_fam_lem :
      (f : OsFamily) (st : Explorer fl) (k : Text)
      → is_on k (toggle_os_fam fl d colors f st).os_sel ≡ (
          if is_listed k (enabled_slugs f st)
          then not (
              not (is_empty (enabled_slugs f st))
              && all (λ x. is_on x st.os_sel) (enabled_slugs f st))
          else is_on k st.os_sel)
  unfolding toggle_os_fam
  toggle_os_fam_lem f st k =
      set_slugs-is_on
        (not (is_empty (enabled_slugs f st)) && all (λ x. is_on x st.os_sel) (enabled_slugs f st)) k
        (enabled_slugs f st) st.os_sel
