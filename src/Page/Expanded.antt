-- ===== src/Page/Expanded.antt =====
-- The similar color that a page of islands/OsDetail.tsx has expanded is one of those it lists.
use desktopcolors.Common.{
  ℕ, zero, suc, List, [], ◌∷◌, Option, none, some, true, false, ◌≡◌, inl, inr, refl, arith, Text,
  text_eq, text_eq_refl, length, any, get_elem?, get_or, Bool-cases,
}
use desktopcolors.ColorCatalog.Platforms.{Platform}
use desktopcolors.Detail.Defs.{DetailOf, SimilarOf}
use desktopcolors.Explorer.Defs.{Step, step_index}
use desktopcolors.Page.Defs.{step_sim, find_index}
use desktopcolors.Page.Machine.{toggled, similar_in}

module _ {F : Type 0} where
  -- the similar color that is expanded is one of the list
  abbrev pub IsListed : Option Text → List (SimilarOf F Platform) → Type 0
  IsListed none l = Unit
  IsListed (some hex) l = any (λ x. text_eq x.hex hex) l ≡ true

  any-get_elem? :
      (l : List (SimilarOf F Platform)) (i : ℕ) (x : SimilarOf F Platform)
      → get_elem? l i ≡ some x
      → any (λ y. text_eq y.hex x.hex) l ≡ true
  any-get_elem? [] i x h = cc h
  any-get_elem? (y ∷ l) zero x h = ground (arith, text_eq_refl x.hex)
  any-get_elem? (y ∷ l) (suc i) x h = ground (arith, any-get_elem? l i x h)

  pub step_sim-IsListed :
      (s : Step) (l : List (SimilarOf F Platform)) (o : Option Text)
      → IsListed o l
      → IsListed (step_sim s l o) l
  unfolding step_sim
  step_sim-IsListed s l o h = stepped (get_elem? l _) refl
    where
      stepped :
          (x : Option (SimilarOf F Platform))
          → get_elem? l (
              step_index s
                (get_or (find_index (λ x. elim o [ none ↦ false | some e ↦ text_eq x.hex e ]) l) 0)
                (length l))
            ≡ x
          → IsListed (elim x [ none ↦ o | some y ↦ some y.hex ]) l
      stepped none e = h
      stepped (some y) e = any-get_elem? l _ y e

  pub toggled-IsListed :
      (hex : Text) (l : List (SimilarOf F Platform)) (o : Option Text)
      → any (λ x. text_eq x.hex hex) l ≡ true
      → IsListed (toggled hex o) l
  toggled-IsListed hex l none h = h
  toggled-IsListed hex l (some x) h = elim (Bool-cases (text_eq x hex)) [
    | inl e ↦ rw e tt
    | inr e ↦ rw e h
  ]

  -- no list, nothing expanded: so the answer of view.json may replace an absent detail
  pub IsListed-arrive :
      (o : Option Text) (before after : Option (DetailOf F Platform))
      → ((d : DetailOf F Platform) → before ≡ some d → after ≡ some d)
      → IsListed o (similar_in before)
      → IsListed o (similar_in after)
  IsListed-arrive none before after keep h = tt
  IsListed-arrive (some hex) none after keep h = cc h
  IsListed-arrive (some hex) (some d) after keep h = rw (keep d refl) h
