-- ===== src/Derive/Merge.antt =====
-- What `mergeColorsByHex` keeps: one merged color for each hex, with every place where it ships.
use mathlib.Core.List.{append_assoc, append-nil}
use desktopcolors.Common.{
  List, [], ◌∷◌, ◌++◌, map, Option, none, some, ◌≡◌, refl, sym, ap, ◌∙◌, subst, arith, Text,
  text_eq, text_eq_iff, to_lower_case, get_or, if◌then◌else◌, All, Dict, lookup, keys, lookup-put,
  Distinct, put-Distinct, All-put, lookup-All, find?, Bool-cases, Option-cases, inl, inr,
}
use desktopcolors.Content.{OsColor}
use desktopcolors.Color.Floats.{Floats}
use desktopcolors.Derive.Defs.{
  OsEntry, Shipped, Group, MergedColor, new_group, add_to_group, merge_color, merge_colors,
  merge_entries, merged_of, merge_colors_by_hex,
}

abbrev pub place : OsEntry → Shipped
place e = record { slug = e.slug; name = e.os.name; year = e.os.year }

-- The places where a hex ships, straight from the entries: an entry for each of its colors that has
-- the hex, in the order of the files.
unfoldable pub shipped_colors : Text → OsEntry → List OsColor → List Shipped
shipped_colors k e [] = []
shipped_colors k e (c ∷ cs) =
    let rest = shipped_colors k e cs in
    if text_eq (to_lower_case c.hex) k then place e ∷ rest else rest

unfoldable pub shipped : Text → List OsEntry → List Shipped
unfolding shipped_colors
shipped k [] = []
shipped k (e ∷ es) = shipped_colors k e e.os.colors ++ shipped k es

abbrev platforms_in : Option Group → List Shipped
platforms_in none = []
platforms_in (some g) = g.platforms

get_or-platforms :
    (o : Option Group) (k : Text) → (get_or o (new_group k)).platforms ≡ platforms_in o
get_or-platforms none k = refl
get_or-platforms (some g) k = refl

merge_color-platforms :
    (k : Text) (e : OsEntry) (c : OsColor) (d : Dict Group)
    → platforms_in (lookup k (merge_color e c d))
      ≡ platforms_in (lookup k d) ++ (if text_eq (to_lower_case c.hex) k then place e ∷ [] else [])
unfolding merge_color add_to_group
merge_color-platforms k e c d = elim (Bool-cases (text_eq (to_lower_case c.hex) k)) [
  | inl h ↦ let same = (text_eq_iff _ _).0 h in rw (lookup-put, h) (rw (get_or-platforms, same))
  | inr h ↦ rw (lookup-put, h) (rw append-nil)
]

merge_colors-platforms :
    (k : Text) (e : OsEntry) (cs : List OsColor) (d : Dict Group)
    → platforms_in (lookup k (merge_colors e cs d))
      ≡ platforms_in (lookup k d) ++ shipped_colors k e cs
unfolding merge_colors shipped_colors
merge_colors-platforms k e [] d = rw append-nil
merge_colors-platforms k e (c ∷ cs) d =
    merge_colors-platforms k e cs (merge_color e c d)
    ∙ ap (λ l. l ++ shipped_colors k e cs) (merge_color-platforms k e c d)
    ∙ elim (Bool-cases (text_eq (to_lower_case c.hex) k)) [
      | inl h ↦
          rw h (append_assoc (platforms_in (lookup k d)) (place e ∷ []) (shipped_colors k e cs))
      | inr h ↦ rw h (append_assoc (platforms_in (lookup k d)) [] (shipped_colors k e cs))
    ]

merge_entries-platforms :
    (k : Text) (es : List OsEntry) (d : Dict Group)
    → platforms_in (lookup k (merge_entries es d)) ≡ platforms_in (lookup k d) ++ shipped k es
unfolding merge_entries shipped
merge_entries-platforms k [] d = rw append-nil
merge_entries-platforms k (e ∷ es) d =
    rw (merge_entries-platforms k es, merge_colors-platforms k e e.os.colors d, append_assoc)

-- the groups are stored under their hex, each once
abbrev IsKeyed : Dict Group → Type 0
IsKeyed d = All (λ e. e.1.hex ≡ e.0) d × Distinct (keys d)

get_or-hex : (k : Text) (d : Dict Group) → IsKeyed d → (get_or (lookup k d) (new_group k)).hex ≡ k
get_or-hex k d h = elim (Option-cases (lookup k d)) [
  | inl e ↦ rw e refl
  | inr (g, e) ↦ rw e (lookup-All (λ e. e.1.hex ≡ e.0) k d g e h.0)
]

merge_color-IsKeyed :
    (e : OsEntry) (c : OsColor) (d : Dict Group) → IsKeyed d → IsKeyed (merge_color e c d)
unfolding merge_color add_to_group
merge_color-IsKeyed e c d h =
    (All-put (λ e. e.1.hex ≡ e.0) _ _ d (get_or-hex _ d h) h.0, put-Distinct _ _ d h.1)

merge_colors-IsKeyed :
    (e : OsEntry) (cs : List OsColor) (d : Dict Group) → IsKeyed d → IsKeyed (merge_colors e cs d)
unfolding merge_colors
merge_colors-IsKeyed e [] d h = h
merge_colors-IsKeyed e (c ∷ cs) d h =
    merge_colors-IsKeyed e cs (merge_color e c d) (merge_color-IsKeyed e c d h)

merge_entries-IsKeyed :
    (es : List OsEntry) (d : Dict Group) → IsKeyed d → IsKeyed (merge_entries es d)
unfolding merge_entries
merge_entries-IsKeyed [] d h = h
merge_entries-IsKeyed (e ∷ es) d h =
    merge_entries-IsKeyed es _ (merge_colors-IsKeyed e e.os.colors d h)

-- the places of the merged color with the hex `k`
abbrev pub platforms_of : Text → List MergedColor → List Shipped
platforms_of k ms = elim (find? (λ m. text_eq m.hex k) ms) [ none ↦ [] | some m ↦ m.platforms ]

platforms_of-cons :
    (k : Text) (m : MergedColor) (ms : List MergedColor)
    → platforms_of k (m ∷ ms) ≡ (if text_eq m.hex k then m.platforms else platforms_of k ms)
platforms_of-cons k m ms = ground arith

platforms_in-cons :
    (k j : Text) (g : Group) (d : Dict Group)
    → platforms_in (lookup k ((j, g) ∷ d))
      ≡ (if text_eq j k then g.platforms else platforms_in (lookup k d))
unfolding lookup
platforms_in-cons k j g d = ground arith

module _ (fl : Floats) where
  merged_of-hex :
      (d : Dict Group) → IsKeyed d → map (λ m. m.hex) (map (λ (k, g). merged_of fl g) d) ≡ keys d
  unfolding merged_of
  merged_of-hex [] h = refl
  merged_of-hex ((k, g) ∷ d) h = λ i. h.0.0 i ∷ merged_of-hex d (h.0.1, h.1.1) i

  merged_of_fields :
      (g : Group) → ((merged_of fl g).hex ≡ g.hex) × ((merged_of fl g).platforms ≡ g.platforms)
  unfolding merged_of
  merged_of_fields g = (refl, refl)

  merged_of-platforms :
      (k : Text) (d : Dict Group)
      → IsKeyed d
      → platforms_of k (map (λ (j, g). merged_of fl g) d) ≡ platforms_in (lookup k d)
  unfolding lookup
  merged_of-platforms k [] h = refl
  merged_of-platforms k ((j, g) ∷ d) h =
      let (hex, platforms) = merged_of_fields g in
      let same = hex ∙ h.0.0 in
      let rest = merged_of-platforms k d (h.0.1, h.1.1) in
      platforms_of-cons k (merged_of fl g) (map (λ (i, g'). merged_of fl g') d)
      ∙ (λ i. if text_eq (same i) k then platforms i else rest i)
      ∙ sym (platforms_in-cons k j g d)

  -- There is one merged color for each hex, whatever the case of its letters in the files, and it lists
  -- every place where the hex ships, in the order of the entries; a hex that ships nowhere has none.
  pub merge_colors_by_hex_lem :
      (entries : List OsEntry)
      → Distinct (map (λ m. m.hex) (merge_colors_by_hex fl entries))
        × ((k : Text) → platforms_of k (merge_colors_by_hex fl entries) ≡ shipped k entries)
  unfolding merge_colors_by_hex lookup shipped
  merge_colors_by_hex_lem entries =
      let keyed = merge_entries-IsKeyed entries [] (tt, tt) in
      (
        subst Distinct (sym (merged_of-hex _ keyed)) keyed.1,
        λ k. merged_of-platforms k _ keyed ∙ merge_entries-platforms k entries [],
      )
