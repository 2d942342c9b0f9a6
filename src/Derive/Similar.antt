-- ===== src/Derive/Similar.antt =====
-- What `similarColors` returns: other systems' colors, the nearest first, and none nearer is left out.
use mathlib.Core.List.{Perm, map-append}
use desktopcolors.Common.{
  ℕ, zero, suc, ◌≤◌, List, [], ◌∷◌, ◌++◌, map, Bool, false, ◌≡◌, ◌⊎◌, refl, ap, ◌∙◌, Text, text_eq,
  to_lower_case, if◌then◌else◌, All, take, length, length-take-le, drop, sort, IsSorted,
  IsWeakOrder, sort-IsSorted, sort-perm, IsSorted-take, IsSorted-drop, take-append-drop, Bool-cases,
  inl, inr, subst, sym,
}
use desktopcolors.Color.Floats.{Floats, IsOrdered}
use desktopcolors.Color.Spaces.{hex_to_oklab, oklab_distance, max}
use desktopcolors.Derive.Defs.{OsEntry, SimilarColor, similar_of, all_similar, similar_colors}
use desktopcolors.Content.{OsColor}

-- every color of every system but the excluded one, with its system
abbrev pub shades : OsEntry → List OsColor → List (OsEntry × OsColor)
shades e [] = []
shades e (c ∷ cs) = (e, c) ∷ shades e cs

abbrev pub foreign_shades : Text → List OsEntry → List (OsEntry × OsColor)
foreign_shades exclude [] = []
foreign_shades exclude (e ∷ es) =
    let rest = foreign_shades exclude es in
    if text_eq e.slug exclude then rest else shades e e.os.colors ++ rest

-- the front is as long as the limit, unless it is all there is
take-filled {ℓ} : {A : Type ℓ} (n : ℕ) (xs : List A) → (length (take n xs) ≡ n) ⊎ (drop n xs ≡ [])
take-filled zero xs = inl refl
take-filled (suc n) [] = inr refl
take-filled (suc n) (x ∷ xs) = elim (take-filled n xs) [ inl e ↦ inl (ap suc e) | inr e ↦ inr e ]

module _ (fl : Floats) where
  abbrev pub nearer : SimilarColor fl → SimilarColor fl → Bool
  nearer a b = fl.lt a.distance b.distance

  abbrev pub IsNumber : SimilarColor fl → Type 0
  IsNumber s = fl.is_nan s.distance ≡ false

  nearer-IsWeakOrder : IsOrdered fl → IsWeakOrder IsNumber nearer
  nearer-IsWeakOrder o = record {
    asymm = λ a b. o.asymm a.distance b.distance;
    neg_trans = λ a b c. o.neg_trans a.distance b.distance c.distance;
  }

  -- what a shade is shown as, with its distance from the color that is looked at
  abbrev pub compared : Text → OsEntry × OsColor → SimilarColor fl
  compared hex (e, c) =
      let distance = oklab_distance fl (hex_to_oklab fl hex) (hex_to_oklab fl c.hex) in
      record {
        hex = to_lower_case c.hex;
        name = c.name;
        os_slug = e.slug;
        os_name = e.os.name;
        distance = distance;
        match =
            max fl (fl.num 0)
              (fl.round (fl.mul (fl.num 100) (fl.sub (fl.num 1) (fl.div distance (fl.dec 4 1)))));
      }

  map-shades :
      (hex : Text) (e : OsEntry) (cs : List OsColor)
      → map (similar_of fl (hex_to_oklab fl hex) e) cs ≡ map (compared hex) (shades e cs)
  unfolding similar_of
  map-shades hex e [] = refl
  map-shades hex e (c ∷ cs) = λ i. compared hex (e, c) ∷ map-shades hex e cs i

  all_similar_lem :
      (hex exclude : Text) (es : List OsEntry)
      → all_similar fl (hex_to_oklab fl hex) es exclude
        ≡ map (compared hex) (foreign_shades exclude es)
  unfolding all_similar
  all_similar_lem hex exclude [] = refl
  all_similar_lem hex exclude (e ∷ es) = elim (Bool-cases (text_eq e.slug exclude)) [
    | inl h ↦ rw h (all_similar_lem hex exclude es)
    | inr h ↦ rw h (
        (λ i. map-shades hex e e.os.colors i ++ all_similar_lem hex exclude es i)
        ∙ sym (map-append (compared hex) (shades e e.os.colors) (foreign_shades exclude es)))
  ]

  -- the answer, with the candidates that the limit leaves out
  pub record IsSimilarList (candidates : List (SimilarColor fl)) (limit : ℕ)
      (result : List (SimilarColor fl)) : Type 0 where
    pub left_out : List (SimilarColor fl)
    pub complete : Perm (result ++ left_out) candidates
    pub short : length result ≤ limit
    pub filled : (length result ≡ limit) ⊎ (left_out ≡ [])
    pub sorted : IsSorted nearer result
    pub nearest : All (λ s. All (λ t. nearer t s ≡ false) left_out) result

  -- Where all distances are numbers, the result holds `limit` colors of the systems but the excluded
  -- one, each at its OKLab distance from the color, or all of them where they are fewer. They stand in
  -- rising distance, and no color that is left out is nearer than one that is kept.
  pub similar_colors-IsSimilarList :
      (o : IsOrdered fl) (hex : Text) (entries : List OsEntry) (exclude : Text) (limit : ℕ)
      → All IsNumber (map (compared hex) (foreign_shades exclude entries))
      → IsSimilarList
          (map (compared hex) (foreign_shades exclude entries))
          limit
          (similar_colors fl hex entries exclude limit)
  unfolding similar_colors
  similar_colors-IsSimilarList o hex entries exclude limit h =
      rw (all_similar_lem hex exclude entries)
        (nearest_first o (map (compared hex) (foreign_shades exclude entries)) limit h)
    where
      nearest_first :
          (o : IsOrdered fl) (candidates : List (SimilarColor fl)) (limit : ℕ)
          → All IsNumber candidates
          → IsSimilarList candidates limit (take limit (sort nearer candidates))
      nearest_first o candidates limit h =
          let sorted = sort-IsSorted IsNumber nearer (nearer-IsWeakOrder o) candidates h in
          record {
            left_out = drop limit (sort nearer candidates);
            complete =
                subst (λ l. Perm l candidates)
                  (sym (take-append-drop limit (sort nearer candidates)))
                  (sort-perm nearer candidates);
            short = length-take-le limit (sort nearer candidates);
            filled = take-filled limit (sort nearer candidates);
            sorted = IsSorted-take nearer limit (sort nearer candidates) sorted;
            nearest = IsSorted-drop nearer limit (sort nearer candidates) sorted;
          }
