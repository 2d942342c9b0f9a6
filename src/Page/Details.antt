-- ===== src/Page/Details.antt =====
-- What `setDetails` of islands/OsDetail.tsx keeps when the answer of view.json arrives.
use desktopcolors.Common.{
  List, [], ◌∷◌, some, ◌≡◌, inl, inr, ap, ◌∙◌, Text, to_lower_case, Dict, lookup, keys, Distinct,
  put, put-Distinct, Option-cases,
}
use desktopcolors.Catalog.{ColorView}
use desktopcolors.ColorCatalog.Platforms.{Platform}
use desktopcolors.Detail.Defs.{DetailOf, OsViewJson, denormalize_details}
use desktopcolors.Page.Defs.{by_hex, spread, loaded}
use desktopcolors.Page.Loading.{or_else, spread-lookup}

spread-Distinct {ℓ} : {A : Type ℓ} (d e : Dict A) → Distinct (keys d) → Distinct (keys (spread d e))
unfolding spread
spread-Distinct d [] h = h
spread-Distinct d ((k, v) ∷ e) h = spread-Distinct (put k v d) e (put-Distinct k v d h)

by_hex-Distinct {ℓ} :
    {A : Type ℓ} (cs : List ColorView) (xs : List A) (d : Dict A)
    → Distinct (keys d)
    → Distinct (keys (by_hex cs xs d))
unfolding by_hex
by_hex-Distinct [] xs d h = h
by_hex-Distinct (c ∷ cs) [] d h = h
by_hex-Distinct (c ∷ cs) (x ∷ xs) d h =
    by_hex-Distinct cs xs (put (to_lower_case c.hex) x d) (put-Distinct _ x d h)

module _ {F : Type 0} where
  pub loaded-Distinct :
      (colors : List ColorView) (json : OsViewJson F) (prev : Dict (DetailOf F Platform))
      → Distinct (keys prev)
      → Distinct (keys (loaded colors json prev))
  unfolding loaded
  loaded-Distinct colors json prev h = elim (Option-cases (denormalize_details json)) [
    | inl e ↦ rw (e, loaded) h
    | inr (dn, e) ↦
        rw (e, loaded)
          (spread-Distinct (by_hex colors dn []) prev (by_hex-Distinct colors dn [] tt))
  ]

  -- the answer changes no detail that the page has
  pub loaded_keeps :
      (colors : List ColorView) (json : OsViewJson F) (prev : Dict (DetailOf F Platform)) (k : Text)
      (d : DetailOf F Platform)
      → Distinct (keys prev)
      → lookup k prev ≡ some d
      → lookup k (loaded colors json prev) ≡ some d
  unfolding loaded
  loaded_keeps colors json prev k d once h = elim (Option-cases (denormalize_details json)) [
    | inl e ↦ rw (e, loaded) h
    | inr (dn, e) ↦
        rw (e, loaded)
          (spread-lookup k (by_hex colors dn []) prev once
            ∙ ap (λ o. or_else o (lookup k (by_hex colors dn []))) h)
  ]
