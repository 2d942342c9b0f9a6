-- ===== src/Explorer/Shown.antt =====
-- A color that passes the filters is shown, in both groupings.
use desktopcolors.Common.{
  ℕ, ◌+◌, ◌≤◌, List, [], ◌∷◌, Option, none, some, Bool, true, false, ◌&&◌, ◌||◌, ◌≡◌, refl, ◌∙◌,
  arith, Text, to_lower_case, trim, filter, any, is_empty, length, sort, length-sort, any-filter,
  Dict,
}
use desktopcolors.Color.Floats.{Floats}
use desktopcolors.Color.Types.{ColorTypeKey, FamilyKey}
use desktopcolors.ColorCatalog.Defs.{
  ColorEntry, Sort, same_type, in_family, Band, before, matches, max_score, rank_from, rank_colors,
}
use desktopcolors.ColorCatalog.Platforms.{Platform}
use desktopcolors.ColorCatalog.Filters.{os_matches}
use desktopcolors.ColorCatalog.Query.{matches_color_query, matches_query}
use desktopcolors.ColorCatalog.Bands.{band_total, band_total-group_into_bands}
use desktopcolors.Explorer.Defs.{
  Grouping, hue, flat, Explorer, has_type, type_list, matched, kept, band_options, bands_for, bands,
  ranking_for, ranking, nothing_in,
}

pub any_imp {ℓ} :
    {A : Type ℓ} (p q : A → Bool) (xs : List A)
    → ((x : A) → p x ≡ true → q x ≡ true)
    → any p xs ≡ true
    → any q xs ≡ true
any_imp p q [] f h = h
any_imp p q (x ∷ xs) f h = ground (arith, f x, any_imp p q xs f)

any-length {ℓ} :
    {A : Type ℓ} (p : A → Bool) (xs : List A) → any p xs ≡ true → 1 ≤ length (filter p xs)
any-length p [] h = cc h
any-length p (x ∷ xs) h = ground (arith, any-length p xs)

nonempty_of_length {ℓ} : {A : Type ℓ} (xs : List A) → 1 ≤ length xs → is_empty xs ≡ false
nonempty_of_length [] h = absurd (omega (arith, h))
nonempty_of_length (x ∷ xs) h = refl

or_false_right : (b : Bool) → (b || false) ≡ b
or_false_right true = refl
or_false_right false = refl

type_list-has_type :
    (ty : Option ColorTypeKey) (types : List ColorTypeKey)
    → (is_empty (type_list ty) || any (λ t. any (λ u. same_type u t) types) (type_list ty))
      ≡ has_type ty types
type_list-has_type none types = refl
type_list-has_type (some t) types = or_false_right (any (λ u. same_type u t) types)

module _ (fl : Floats) where
  length-rank_from :
      (top i : ℕ) (cs : List (ColorEntry fl)) → length (rank_from fl top i cs) ≡ length cs
  unfolding rank_from
  length-rank_from top i [] = refl
  length-rank_from top i (c ∷ cs) = omega (arith, length-rank_from top (i + 1) cs)

  length-rank_colors :
      (cs : List (ColorEntry fl)) (family : Option FamilyKey) (by : Sort)
      → length (rank_colors fl cs family by) ≡ length (filter (λ c. in_family family c.family) cs)
  unfolding rank_colors
  length-rank_colors cs family by =
      let kept = filter (λ c. in_family family c.family) cs in
      length-rank_from (max_score fl kept 0) 0 (sort (before fl by) kept)
      ∙ length-sort (before fl by) kept

  nonempty_bands : (bs : List (Band fl)) → 1 ≤ band_total fl bs → is_empty bs ≡ false
  nonempty_bands [] h = absurd (omega (arith, h))
  nonempty_bands (b ∷ bs) h = refl

  blank_matches :
      (c : ColorEntry fl) (q : Text) (d : Dict (List Platform))
      → is_empty (to_lower_case (trim q)) ≡ true
      → matches_color_query fl c q d ≡ true
  unfolding matches_color_query matches_query
  blank_matches c q d h = rw h refl

regroup : (i t o : Bool) → ((i && t) && o) ≡ true → (o && (i && t)) ≡ true
regroup i t o h = ground (arith, h)

regroup_flat : (i t o : Bool) → ((i && t) && o) ≡ true → (o && (t && i)) ≡ true
regroup_flat i t o h = ground (arith, h)

module _ (fl : Floats) (d : Dict (List Platform)) (colors : List (ColorEntry fl)) where
  -- the color passes the filters by family, by type and by system
  abbrev pub passes : Explorer fl → ColorEntry fl → Bool
  passes st c =
      (in_family st.family c.family && has_type st.type c.types)
      && os_matches d c.hex st.os_sel st.os_mode st.defaults_only

  any-kept :
      (st : Explorer fl) (m : ColorEntry fl → Bool)
      → is_empty (to_lower_case (trim st.search)) ≡ true
      → any (λ c. os_matches d c.hex st.os_sel st.os_mode st.defaults_only && m c) colors ≡ true
      → any m (kept fl d colors st) ≡ true
  unfolding kept matched
  any-kept st m blank h =
      let os = λ (c : ColorEntry fl). os_matches d c.hex st.os_sel st.os_mode st.defaults_only in
      let found = λ (c : ColorEntry fl). matches_color_query fl c st.search d in
      any-filter m os (filter found colors)
      ∙ any-filter (λ c. os c && m c) found colors
      ∙ any_imp (λ c. os c && m c) (λ c. found c && (os c && m c)) colors
          (λ c k. rw (blank_matches fl c st.search d blank) k) h

  bands_shown :
      (st : Explorer fl)
      → is_empty (to_lower_case (trim st.search)) ≡ true
      → any (passes st) colors ≡ true
      → is_empty (bands_for fl d colors hue st) ≡ false
  unfolding matches
  bands_shown st blank h =
      let m = matches fl (band_options fl d colors st) in
      let some_kept = any-kept st m blank (
        any_imp (passes st) _ colors
          (λ c k. rw (type_list-has_type st.type c.types) (
            regroup (in_family st.family c.family) (has_type st.type c.types)
              (os_matches d c.hex st.os_sel st.os_mode st.defaults_only) k))
          h) in
      nonempty_bands fl (bands_for fl d colors hue st) (
        rw (band_total-group_into_bands fl (kept fl d colors st) (band_options fl d colors st))
          (any-length m (kept fl d colors st) some_kept))

  ranking_shown :
      (st : Explorer fl)
      → is_empty (to_lower_case (trim st.search)) ≡ true
      → any (passes st) colors ≡ true
      → is_empty (ranking_for fl d colors flat st) ≡ false
  ranking_shown st blank h =
      let i = λ (c : ColorEntry fl). in_family st.family c.family in
      let t = λ (c : ColorEntry fl). has_type st.type c.types in
      let typed = filter t (kept fl d colors st) in
      let some_kept =
        any-filter i t (kept fl d colors st)
        ∙ any-kept st (λ c. t c && i c) blank
            (any_imp (passes st) _ colors
              (λ c k.
                regroup_flat (in_family st.family c.family) (has_type st.type c.types)
                  (os_matches d c.hex st.os_sel st.os_mode st.defaults_only) k)
              h) in
      nonempty_of_length (ranking_for fl d colors flat st)
        (rw (length-rank_colors fl typed st.family st.sort_by) (any-length i typed some_kept))

  pub shown_for :
      (st : Explorer fl) (g : Grouping)
      → st.group ≡ g
      → is_empty (to_lower_case (trim st.search)) ≡ true
      → any (passes st) colors ≡ true
      → nothing_in fl d colors g st ≡ false
  unfolding bands ranking
  shown_for st hue e blank h = rw e (bands_shown st blank h)
  shown_for st flat e blank h = rw e (ranking_shown st blank h)
