-- ===== src/Explorer/Defs.antt =====
-- The state of islands/Colors.tsx with its derived lists and its handlers. `useMemo` keeps values that
-- are computed again here. The menus, the download sheet and the width of a band are in Machine.
use desktopcolors.Common.{
  ℕ, ◌+◌, ◌-◌, ◌%◌, List, [], ◌∷◌, map, Option, none, some, Bool, true, false, not, ◌&&◌, Text,
  text_eq, show, codes, ◌++◌, if◌then◌else◌, filter, any, all, is_empty, length, get_elem?, ◌==◌,
  Dict, lookup, put, delete,
}
use desktopcolors.Color.Floats.{Floats}
use desktopcolors.Color.Types.{FamilyKey, ColorTypeKey}
use desktopcolors.ColorCatalog.Defs.{
  ColorEntry, Sort, same_family, same_type, in_family, Counts, family_counts, type_counts, Band,
  BandOptions, group_into_bands, Ranked, rank_colors,
}
use desktopcolors.ColorCatalog.Platforms.{Platform, OsFamily}
use desktopcolors.ColorCatalog.Filters.{OsSelection, OsMode, os_matches, os_option_disabled}
use desktopcolors.ColorCatalog.Query.{matches_color_query}

pub data Grouping : Type 0 where
  hue flat : Grouping

-- the two directions of `stepPv`
pub data Step : Type 0 where
  forward back : Step

-- `!type || c.types.includes(type)`
abbrev pub has_type : Option ColorTypeKey → List ColorTypeKey → Bool
has_type none types = true
has_type (some t) types = any (λ u. same_type u t) types

-- `type ? [type] : []`
abbrev pub type_list : Option ColorTypeKey → List ColorTypeKey
type_list none = []
type_list (some t) = t ∷ []

-- `next[slug]` on a selection
abbrev pub is_on : Text → OsSelection → Bool
is_on slug sel = elim (lookup slug sel) [ none ↦ false | some u ↦ true ]

unfoldable pub toggle_slug : Text → OsSelection → OsSelection
toggle_slug slug sel = if is_on slug sel then delete slug sel else put slug tt sel

-- `slugs.forEach((x) => { if (allOn) delete next[x]; else next[x] = true; })`
unfoldable pub set_slugs : Bool → List Text → OsSelection → OsSelection
set_slugs all_on [] sel = sel
set_slugs all_on (x ∷ xs) sel = set_slugs all_on xs (if all_on then delete x sel else put x tt sel)

unfoldable pub count_label : ℕ → ℕ → Text
count_label n total = if n == total then show total else show n ++ (codes "/" ++ show total)

-- `(idx + d + n) % n` with d = 1 or d = -1; a preview is open on a list that is not empty
unfoldable pub step_index : Step → ℕ → ℕ → ℕ
step_index forward idx n = (idx + 1 + n) % n
step_index back idx n = (idx + n - 1) % n

module _ (fl : Floats) where
  pub record Preview : Type 0 where
    pub list : List (ColorEntry fl)
    pub idx : ℕ

  pub record Explorer : Type 0 where
    pub group : Grouping
    pub sort_by : Sort
    pub search : Text
    pub family : Option FamilyKey
    pub type : Option ColorTypeKey
    pub exp : Option Text
    pub os_sel : OsSelection
    pub os_mode : OsMode
    pub defaults_only : Bool
    pub pv : Option Preview

  module _ (platforms_by_hex : Dict (List Platform)) (colors : List (ColorEntry fl)) where
    unfoldable pub matched : Explorer → List (ColorEntry fl)
    matched st = filter (λ c. matches_color_query fl c st.search platforms_by_hex) colors

    unfoldable pub counts : Explorer → Counts FamilyKey
    unfolding matched
    counts st = family_counts fl (filter (λ c. has_type st.type c.types) (matched st))

    unfoldable pub t_counts : Explorer → Counts ColorTypeKey
    unfolding matched
    t_counts st = type_counts fl (filter (λ c. in_family st.family c.family) (matched st))

    -- `matched.filter(osMatches)`
    unfoldable pub kept : Explorer → List (ColorEntry fl)
    unfolding matched
    kept st =
        filter (λ c. os_matches platforms_by_hex c.hex st.os_sel st.os_mode st.defaults_only)
          (matched st)

    abbrev pub band_options : Explorer → BandOptions fl
    band_options st = record { family = st.family; types = type_list st.type; sort_by = st.sort_by }

    abbrev pub bands_for : Grouping → Explorer → List (Band fl)
    bands_for flat st = []
    bands_for hue st = group_into_bands fl (kept st) (band_options st)

    unfoldable pub bands : Explorer → List (Band fl)
    unfolding kept
    bands st = bands_for st.group st

    abbrev pub ranking_for : Grouping → Explorer → List (Ranked fl)
    ranking_for hue st = []
    ranking_for flat st =
        rank_colors fl (filter (λ c. has_type st.type c.types) (kept st)) st.family st.sort_by

    unfoldable pub ranking : Explorer → List (Ranked fl)
    unfolding kept
    ranking st = ranking_for st.group st

    unfoldable pub os_universe_colors : Explorer → List (ColorEntry fl)
    os_universe_colors st =
        filter (λ c. in_family st.family c.family && has_type st.type c.types) colors

    unfoldable pub os_disabled : Explorer → Text → Bool
    unfolding os_universe_colors
    os_disabled st slug =
        os_option_disabled platforms_by_hex slug (os_universe_colors st) st.os_sel st.os_mode
          st.defaults_only

    abbrev pub nothing_in : Grouping → Explorer → Bool
    nothing_in flat st = is_empty (ranking st)
    nothing_in hue st = is_empty (bands st)

    unfoldable pub no_results : Explorer → Bool
    unfolding bands ranking
    no_results st = nothing_in st.group st

    unfoldable pub toggle_os_fam : OsFamily → Explorer → Explorer
    unfolding os_disabled set_slugs
    toggle_os_fam f st =
        let slugs = filter (λ s. not (os_disabled st s)) (map (λ o. o.slug) f.oses) in
        let all_on = not (is_empty slugs) && all (λ x. is_on x st.os_sel) slugs in
        record st { os_sel = set_slugs all_on slugs st.os_sel }

  unfoldable pub toggle_os_slug : Text → Explorer → Explorer
  unfolding toggle_slug
  toggle_os_slug slug st = record st { os_sel = toggle_slug slug st.os_sel }

  unfoldable pub set_search : Text → Explorer → Explorer
  set_search q st = record st { search = q; exp = none }

  unfoldable pub toggle_defaults_only : Explorer → Explorer
  toggle_defaults_only st = record st { defaults_only = not st.defaults_only; exp = none }

  abbrev pub toggled_family : FamilyKey → Option FamilyKey → Option FamilyKey
  toggled_family k none = some k
  toggled_family k (some f) = if same_family f k then none else some k

  unfoldable pub toggle_family : FamilyKey → Explorer → Explorer
  toggle_family k st = record st { family = toggled_family k st.family }

  abbrev pub toggled_type : ColorTypeKey → Option ColorTypeKey → Option ColorTypeKey
  toggled_type k none = some k
  toggled_type k (some t) = if same_type t k then none else some k

  unfoldable pub toggle_type : ColorTypeKey → Explorer → Explorer
  toggle_type k st = record st { type = toggled_type k st.type }

  abbrev pub toggled_exp : Text → Option Text → Option Text
  toggled_exp hex none = some hex
  toggled_exp hex (some e) = if text_eq e hex then none else some hex

  unfoldable pub toggle_exp : Text → Explorer → Explorer
  toggle_exp hex st = record st { exp = toggled_exp hex st.exp }

  unfoldable pub open_pv : List (ColorEntry fl) → ℕ → Explorer → Explorer
  open_pv list idx st = record st { pv = some (record { list = list; idx = idx }) }

  abbrev pub stepped : Step → Option Preview → Option Preview
  stepped s none = none
  stepped s (some p) = some (record p { idx = step_index s p.idx (length p.list) })

  unfoldable pub step_pv : Step → Explorer → Explorer
  unfolding step_index
  step_pv s st = record st { pv = stepped s st.pv }

  abbrev pub color_at : Option Preview → Option (ColorEntry fl)
  color_at none = none
  color_at (some p) = get_elem? p.list p.idx

  -- `cur`
  unfoldable pub current : Explorer → Option (ColorEntry fl)
  current st = color_at st.pv
