-- ===== src/Controls/Defs.antt =====
-- The state of islands/PlatformControls.tsx, what it shows and its handlers. `localeCompare` is a
-- parameter.
use desktopcolors.Common.{
  ℕ, List, [], ◌∷◌, Option, Bool, true, false, not, ◌||◌, Text, codes, to_lower_case, trim,
  includes, is_empty, filter, any, if◌then◌else◌, ltb, sort,
}

pub record AltColor : Type 0 where
  pub hex : Text
  pub name : Text

pub record ListColor : Type 0 where
  pub hex : Text
  pub name : Text
  pub default : Option Bool

pub record PlatformItem : Type 0 where
  pub slug : Text
  pub name : Text
  pub year : ℕ
  pub added : Text
  pub family : Text
  pub default_hex : Text
  pub color_count : ℕ
  pub score : ℕ
  pub score_label : Text
  pub alt_colors : List AltColor
  pub href : Text
  pub list_colors : List ListColor

pub data SortKey : Type 0 where
  popular by_year alpha newest : SortKey

-- `a === b`
unfoldable pub same_key : SortKey → SortKey → Bool
same_key popular popular = true
same_key by_year by_year = true
same_key alpha alpha = true
same_key newest newest = true
same_key _ _ = false

pub record SortOption : Type 0 where
  pub key : SortKey
  pub label : Text
  pub icon : Text
  pub full : Text

unfoldable pub sorts : List SortOption
sorts =
    record { key = popular; label = codes "Popular"; icon = codes "★"; full = codes "Popularity" }
    ∷ record { key = by_year; label = codes "Year"; icon = codes "◷"; full = codes "Chronological" }
    ∷ record { key = newest; label = codes "New"; icon = codes "✦"; full = codes "Recently added" }
    ∷ record { key = alpha; label = codes "A–Z"; icon = []; full = codes "Alphabetical" }
    ∷ []

-- the sign of a comparison: below zero, zero, above zero
pub data Sign : Type 0 where
  below level above : Sign

abbrev pub is_below : Sign → Bool
is_below below = true
is_below level = false
is_below above = false

-- `-x`
abbrev pub negated : Sign → Sign
negated below = above
negated level = level
negated above = below

-- the sign of `a - b`
abbrev pub difference : ℕ → ℕ → Sign
difference a b = if ltb a b then below else (if ltb b a then above else level)

-- the test of one item against a query that is trimmed and in lower case
unfoldable pub item_matches : Text → PlatformItem → Bool
item_matches q it =
    includes (to_lower_case it.name) q
    || includes (to_lower_case it.family) q
    || includes it.default_hex q
    || any (λ c. includes (to_lower_case c.name) q || includes c.hex q) it.alt_colors

pub record Controls : Type 0 where
  pub query : Text
  pub sort_key : SortKey
  pub rev : Bool

unfoldable pub select_sort : SortKey → Controls → Controls
unfolding same_key
select_sort key st =
    if same_key key st.sort_key
    then record st { rev = not st.rev }
    else record st { sort_key = key; rev = false }

unfoldable pub dir_word : SortKey → Bool → Text
dir_word popular rev = if rev then codes "least first" else codes "most first"
dir_word by_year rev = if rev then codes "newest first" else codes "oldest first"
dir_word newest rev = if rev then codes "oldest first" else codes "newest first"
dir_word alpha rev = if rev then codes "Z → A" else codes "A → Z"

-- what is left of the items for a query
unfoldable pub searched : Text → List PlatformItem → List PlatformItem
unfolding item_matches
searched query items =
    let q = to_lower_case (trim query) in
    if is_empty q then items else filter (item_matches q) items

module _ (locale_compare : Text → Text → Sign) where
  unfoldable pub compare_by : SortKey → PlatformItem → PlatformItem → Sign
  compare_by popular a b = difference b.score a.score
  compare_by by_year a b = difference a.year b.year
  compare_by newest a b = locale_compare b.added a.added
  compare_by alpha a b = locale_compare a.name b.name

  -- "comes before", in the direction that is set
  unfoldable pub comes_before : SortKey → Bool → PlatformItem → PlatformItem → Bool
  unfolding compare_by
  comes_before key rev a b =
      is_below (if rev then negated (compare_by key a b) else compare_by key a b)

  unfoldable pub shown : List PlatformItem → Controls → List PlatformItem
  unfolding searched comes_before
  shown items st = sort (comes_before st.sort_key st.rev) (searched st.query items)
