-- ===== src/Widgets/Guide.antt =====
-- The state of islands/SetupGuide.tsx: the query, the tab, and the guide that is open.
use desktopcolors.Common.{
  ℕ, List, [], ◌∷◌, Option, none, some, ◌≡◌, Text, codes, text_eq, if◌then◌else◌, length, All,
}
use desktopcolors.Guides.Defs.{
  GuideCat, desktop, mobile, SetupGuideEntry, filter_guides, guide_counts,
}
use desktopcolors.Guides.Laws.{guide_counts-filter_guides}

-- `cat` is `none` for "all"
pub record GuideState : Type 0 where
  pub query : Text
  pub cat : Option GuideCat
  pub opened : Option Text

abbrev pub started : GuideState
started = record { query = []; cat = none; opened = none }

pub record Tab : Type 0 where
  pub key : Option GuideCat
  pub label : Text
  pub count : ℕ

unfoldable pub set_query : Text → GuideState → GuideState
set_query q st = record st { query = q }

unfoldable pub set_cat : Option GuideCat → GuideState → GuideState
set_cat cat st = record st { cat = cat }

-- `k === g.key ? null : g.key`
abbrev toggled_guide : Text → Option Text → Option Text
toggled_guide key none = some key
toggled_guide key (some k) = if text_eq k key then none else some key

unfoldable pub toggle_guide : Text → GuideState → GuideState
toggle_guide key st = record st { opened = toggled_guide key st.opened }

module _ (guides : List SetupGuideEntry) where
  unfoldable pub shown_guides : GuideState → List SetupGuideEntry
  shown_guides st = filter_guides guides st.query st.cat

  -- `filters`
  unfoldable pub tabs : GuideState → List Tab
  tabs st =
      let counts = guide_counts guides st.query in
      record { key = none; label = codes "All"; count = counts.all }
      ∷ record { key = some desktop; label = codes "Desktop"; count = counts.desktop }
      ∷ record { key = some mobile; label = codes "Mobile"; count = counts.mobile }
      ∷ []

  -- Each tab bears the number of guides that picking it shows, for the query at hand and whatever tab is
  -- chosen now.
  pub tabs-shown_guides :
      (st : GuideState)
      → All (λ tab. tab.count ≡ length (shown_guides (set_cat tab.key st))) (tabs st)
  unfolding tabs shown_guides set_cat
  tabs-shown_guides st =
      let (a, d, m, _, _) = guide_counts-filter_guides guides st.query in (a, (d, (m, tt)))
