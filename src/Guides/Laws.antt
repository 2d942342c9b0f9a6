-- ===== src/Guides/Laws.antt =====
-- The numbers on the tabs of the guides are those of the guides that each tab lists.
use desktopcolors.Common.{
  ◌+◌, List, [], ◌∷◌, Option, none, some, not, ◌&&◌, ◌≡◌, refl, ap, ◌∙◌, arith, Text, to_lower_case,
  to_lower_case_idem, trim, trim-to_lower_case, filter, length,
}
use desktopcolors.Guides.Defs.{
  GuideCat, desktop, mobile, SetupGuideEntry, same_cat, mentions, in_cat, filter_guides,
  guide_counts,
}

one_cat : (c : GuideCat) → same_cat c mobile ≡ not (same_cat c desktop)
unfolding same_cat
one_cat desktop = refl
one_cat mobile = refl

split_by_cat :
    (q : Text) (gs : List SetupGuideEntry)
    → length (filter (mentions q) gs)
      ≡ length (filter (λ g. in_cat (some desktop) g.cat && mentions q g) gs)
        + length (filter (λ g. in_cat (some mobile) g.cat && mentions q g) gs)
split_by_cat q [] = omega arith
split_by_cat q (g ∷ gs) = ground (arith, one_cat g.cat, split_by_cat q gs)

in_cat-filter :
    (q : Text) (k : GuideCat) (gs : List SetupGuideEntry)
    → length (filter (λ g. same_cat g.cat k) (filter (mentions q) gs))
      ≡ length (filter (λ g. in_cat (some k) g.cat && mentions q g) gs)
in_cat-filter q k [] = refl
in_cat-filter q k (g ∷ gs) = ground (arith, in_cat-filter q k gs)

-- The three counts for a query are the numbers of guides that the three tabs list for it, the first is
-- the sum of the others, and the case of the query's letters does not matter to what is listed.
pub guide_counts-filter_guides :
    (guides : List SetupGuideEntry) (query : Text)
    → ((guide_counts guides query).all ≡ length (filter_guides guides query none))
      × ((guide_counts guides query).desktop ≡ length (filter_guides guides query (some desktop)))
      × ((guide_counts guides query).mobile ≡ length (filter_guides guides query (some mobile)))
      × ((guide_counts guides query).all
          ≡ (guide_counts guides query).desktop + (guide_counts guides query).mobile)
      × ((cat : Option GuideCat)
          → filter_guides guides (to_lower_case query) cat ≡ filter_guides guides query cat)
unfolding guide_counts filter_guides
guide_counts-filter_guides guides query =
    let q = to_lower_case (trim query) in
    let d = in_cat-filter q desktop guides in
    let m = in_cat-filter q mobile guides in
    (
      refl,
      d,
      m,
      omega (arith, split_by_cat q guides, d, m),
      λ cat.
          ap (λ r. filter (λ g. in_cat cat g.cat && mentions r g) guides)
            (ap to_lower_case (trim-to_lower_case query) ∙ to_lower_case_idem (trim query)),
    )
