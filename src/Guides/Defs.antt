-- ===== src/Guides/Defs.antt =====
-- The record of a guide, `filterGuides` and `guideCounts` of lib/setup-guides.ts.
use desktopcolors.Common.{
  ℕ, List, ◌∷◌, ◌++◌, Option, none, some, Bool, true, false, ◌&&◌, ◌||◌, Text, codes, to_lower_case,
  trim, includes, join, is_empty, filter, length,
}

pub data GuideCat : Type 0 where
  desktop mobile : GuideCat

pub record SetupGuideEntry : Type 0 where
  pub key : Text
  pub os : Text
  pub note : Text
  pub swatch : Text
  pub cat : GuideCat
  pub steps : List Text
  pub code : Option Text
  pub article : List Text
  -- the labels of the screenshots
  pub shots : Option (List Text)

-- `a === b`
unfoldable pub same_cat : GuideCat → GuideCat → Bool
same_cat desktop desktop = true
same_cat mobile mobile = true
same_cat _ _ = false

unfoldable pub haystack : SetupGuideEntry → Text
haystack g = to_lower_case (join (g.os ∷ g.note ∷ (g.steps ++ g.article)) (codes " "))

-- `!q || haystack(g).includes(q)`
unfoldable pub mentions : Text → SetupGuideEntry → Bool
unfolding haystack
mentions q g = is_empty q || includes (haystack g) q

-- `cat === "all" || g.cat === cat`; `none` is "all"
abbrev pub in_cat : Option GuideCat → GuideCat → Bool
in_cat none c = true
in_cat (some k) c = same_cat c k

unfoldable pub filter_guides : List SetupGuideEntry → Text → Option GuideCat → List SetupGuideEntry
unfolding mentions same_cat
filter_guides guides query cat =
    let q = to_lower_case (trim query) in filter (λ g. in_cat cat g.cat && mentions q g) guides

pub record GuideCounts : Type 0 where
  pub all : ℕ
  pub desktop : ℕ
  pub mobile : ℕ

unfoldable pub guide_counts : List SetupGuideEntry → Text → GuideCounts
unfolding mentions same_cat
guide_counts guides query =
    let q = to_lower_case (trim query) in
    let m = filter (mentions q) guides in
    record {
      all = length m;
      desktop = length (filter (λ g. same_cat g.cat desktop) m);
      mobile = length (filter (λ g. same_cat g.cat mobile) m);
    }
