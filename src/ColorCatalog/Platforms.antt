-- ===== src/ColorCatalog/Platforms.antt =====
-- `buildPlatformsByHex` and `buildOsUniverse` of lib/colorCatalog.ts. `localeCompare` is a parameter: the
-- test that one name sorts before another.
use desktopcolors.Common.{
  ℕ, List, [], ◌∷◌, ◌++◌, map, Bool, ◌&&◌, ◌||◌, Text, text_eq, to_lower_case, get_or,
  if◌then◌else◌, ltb, ◌==◌, sort, Dict, lookup, put,
}
use desktopcolors.Catalog.{Catalog, OsView, ColorView}

pub record Platform : Type 0 where
  pub slug : Text
  pub name : Text
  pub year : ℕ
  pub family : Text
  pub is_default : Bool

pub record OsItem : Type 0 where
  pub slug : Text
  pub name : Text
  pub year : ℕ
  pub family : Text

pub record OsFamily : Type 0 where
  pub name : Text
  pub oses : List OsItem

abbrev pub platform : OsView → ColorView → Platform
platform o c = record {
  slug = o.slug;
  name = o.name;
  year = o.year;
  family = o.family;
  is_default = c.is_default;
}

-- `(map[key] ??= []).push(p)`
unfoldable pub push_platform : Text → Platform → Dict (List Platform) → Dict (List Platform)
push_platform key p d = put key (get_or (lookup key d) [] ++ p ∷ []) d

-- the nested loops over the systems and their colors
unfoldable pub add_colors : OsView → List ColorView → Dict (List Platform) → Dict (List Platform)
unfolding push_platform
add_colors o [] d = d
add_colors o (c ∷ cs) d = add_colors o cs (push_platform (to_lower_case c.hex) (platform o c) d)

unfoldable pub add_systems : List OsView → Dict (List Platform) → Dict (List Platform)
unfolding add_colors
add_systems [] d = d
add_systems (o ∷ os) d = add_systems os (add_colors o o.colors d)

-- the loop over the keys, which sorts each list in place
unfoldable pub sort_values {ℓ} : {A : Type ℓ} → (A → A → Bool) → Dict (List A) → Dict (List A)
sort_values lt [] = []
sort_values lt ((k, v) ∷ d) = (k, sort lt v) ∷ sort_values lt d

-- pushes onto the first family with the name, or onto a new one at the end
unfoldable pub add_to_family : OsItem → List OsFamily → List OsFamily
add_to_family o [] = record { name = o.family; oses = o ∷ [] } ∷ []
add_to_family o (f ∷ fs) =
    let later = f ∷ add_to_family o fs in
    if text_eq f.name o.family then record f { oses = f.oses ++ o ∷ [] } ∷ fs else later

unfoldable pub add_families : List OsItem → List OsFamily → List OsFamily
unfolding add_to_family
add_families [] fams = fams
add_families (o ∷ os) fams = add_families os (add_to_family o fams)

abbrev pub os_item : OsView → OsItem
os_item o = record { slug = o.slug; name = o.name; year = o.year; family = o.family }

module _ (name_before : Text → Text → Bool) where
  -- `a.year - b.year || a.name.localeCompare(b.name)`
  abbrev pub platform_before : Platform → Platform → Bool
  platform_before a b = ltb a.year b.year || (a.year == b.year && name_before a.name b.name)

  abbrev pub os_before : OsItem → OsItem → Bool
  os_before a b = ltb a.year b.year || (a.year == b.year && name_before a.name b.name)

  unfoldable pub build_platforms_by_hex : Catalog → Dict (List Platform)
  unfolding add_systems sort_values
  build_platforms_by_hex catalog = sort_values platform_before (add_systems catalog.os_list [])

  unfoldable pub build_os_universe : Catalog → List OsFamily
  unfolding add_families
  build_os_universe catalog = add_families (sort os_before (map os_item catalog.os_list)) []
