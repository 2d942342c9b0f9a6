-- ===== src/ColorCatalog/Universe.antt =====
-- What `buildOsUniverse` lists under the name of a family.
use mathlib.Core.List.{append_assoc, append-nil}
use desktopcolors.Common.{
  ◌≤◌, List, [], ◌∷◌, ◌++◌, map, filter, length, length-append, All, Bool, false, ◌≡◌, refl, sym,
  ap, ◌∙◌, subst, arith, Text, text_eq, text_eq_iff, get_or, if◌then◌else◌, sort, Dict, keys,
  lookup, put, lookup-put, put-Distinct, All-put, Distinct, Bool-cases, inl, inr,
}
use desktopcolors.Catalog.{Catalog}
use desktopcolors.ColorCatalog.Platforms.{
  OsItem, OsFamily, add_to_family, add_families, os_item, os_before, build_os_universe,
}

-- the families as a map from their names
abbrev pub by_family : List OsFamily → Dict (List OsItem)
by_family fams = map (λ f. (f.name, f.oses)) fams

abbrev pub at_name : Text → Dict (List OsItem) → List OsItem
at_name n d = get_or (lookup n d) []

at_name_of_other :
    (j k : Text) (v : List OsItem) (d : Dict (List OsItem))
    → text_eq j k ≡ false
    → at_name k ((j, v) ∷ d) ≡ at_name k d
unfolding lookup
at_name_of_other j k v d e = rw e refl

-- filing a system is a push under the name of its family
add_to_family-by_family :
    (o : OsItem) (fams : List OsFamily)
    → by_family (add_to_family o fams)
      ≡ put o.family (at_name o.family (by_family fams) ++ o ∷ []) (by_family fams)
unfolding add_to_family put lookup
add_to_family-by_family o [] = refl
add_to_family-by_family o (f ∷ fams) = elim (Bool-cases (text_eq f.name o.family)) [
  | inl e ↦
      let same = (text_eq_iff f.name o.family).0 e in
      rw e (λ i. (same i, f.oses ++ o ∷ []) ∷ by_family fams)
  | inr e ↦
      let other = at_name_of_other f.name o.family f.oses (by_family fams) e in
      rw e (
        ap (λ d. (f.name, f.oses) ∷ d) (add_to_family-by_family o fams)
        ∙ ap (λ l. (f.name, f.oses) ∷ put o.family (l ++ o ∷ []) (by_family fams)) (sym other))
]

put-at_name :
    (o : OsItem) (n : Text) (d : Dict (List OsItem))
    → at_name n (put o.family (at_name o.family d ++ o ∷ []) d)
      ≡ at_name n d ++ (if text_eq o.family n then o ∷ [] else [])
put-at_name o n d = elim (Bool-cases (text_eq o.family n)) [
  | inl h ↦
      let same = (text_eq_iff o.family n).0 h in
      rw (lookup-put, h) (ap (λ k. at_name k d ++ o ∷ []) same)
  | inr h ↦ rw (lookup-put, h) (rw append-nil refl)
]

add_families-at_name :
    (n : Text) (os : List OsItem) (fams : List OsFamily)
    → at_name n (by_family (add_families os fams))
      ≡ at_name n (by_family fams) ++ filter (λ o. text_eq o.family n) os
unfolding add_families
add_families-at_name n [] fams = rw append-nil refl
add_families-at_name n (o ∷ os) fams =
    add_families-at_name n os (add_to_family o fams)
    ∙ ap (λ l. l ++ filter (λ o. text_eq o.family n) os)
        (ap (at_name n) (add_to_family-by_family o fams) ∙ put-at_name o n (by_family fams))
    ∙ elim (Bool-cases (text_eq o.family n)) [
      | inl h ↦ rw h (append_assoc (at_name n (by_family fams)) (o ∷ []) _)
      | inr h ↦ rw h (append_assoc (at_name n (by_family fams)) [] _)
    ]

-- the names differ, and no family is empty
abbrev pub AreFamilies : Dict (List OsItem) → Type 0
AreFamilies d = Distinct (keys d) × All (λ (k, v). 1 ≤ length v) d

add_families-AreFamilies :
    (os : List OsItem) (fams : List OsFamily)
    → AreFamilies (by_family fams)
    → AreFamilies (by_family (add_families os fams))
unfolding add_families
add_families-AreFamilies [] fams h = h
add_families-AreFamilies (o ∷ os) fams h =
    let d = by_family fams in
    let l = at_name o.family d in
    add_families-AreFamilies os (add_to_family o fams) (
      subst AreFamilies (sym (add_to_family-by_family o fams)) (
        put-Distinct o.family (l ++ o ∷ []) d h.0,
        All-put (λ (k, v). 1 ≤ length v) o.family (l ++ o ∷ []) d
            (omega (arith, length-append l (o ∷ []))) h.1,
      ))

-- The families have different names and none is empty, and under each name stand exactly the systems of
-- that family, in the order of their years and names; a name that no system gives has none.
pub build_os_universe_lem :
    (name_before : Text → Text → Bool) (catalog : Catalog) (n : Text)
    → Distinct (keys (by_family (build_os_universe name_before catalog)))
      × All (λ (k, v). 1 ≤ length v) (by_family (build_os_universe name_before catalog))
      × (at_name n (by_family (build_os_universe name_before catalog))
          ≡ filter
              (λ o. text_eq o.family n)
              (sort (os_before name_before) (map os_item catalog.os_list)))
unfolding build_os_universe lookup
build_os_universe_lem name_before catalog n =
    let os = sort (os_before name_before) (map os_item catalog.os_list) in
    let (a, b) = add_families-AreFamilies os [] (tt, tt) in (a, b, add_families-at_name n os [])
