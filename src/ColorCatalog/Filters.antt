-- ===== src/ColorCatalog/Filters.antt =====
-- The filter by system of lib/colorCatalog.ts: `osMatch`, `defaultMatch` and `osOptionDisabled`.
pub mod Laws
use desktopcolors.Common.{
  ℕ, List, [], ◌∷◌, ◌++◌, map, Option, none, some, Bool, true, false, not, ◌&&◌, ◌||◌, Text,
  text_eq, to_lower_case, get_or, if◌then◌else◌, all, any, filter, is_empty, Dict, lookup, keys,
}
use desktopcolors.Color.Floats.{Floats}
use desktopcolors.ColorCatalog.Defs.{ColorEntry}
use desktopcolors.ColorCatalog.Platforms.{Platform}

pub data OsMode : Type 0 where
  any_of all_of : OsMode

-- `Record<string, true>`: every own key is selected
abbrev pub OsSelection : Type 0
OsSelection = Dict (Unit {0})

-- `Object.keys(osSel).filter((k) => osSel[k])`
abbrev pub selected : OsSelection → List Text
selected sel = keys sel

-- `slugs.has(k)`
abbrev pub has : List Text → Text → Bool
has slugs k = any (λ s. text_eq s k) slugs

-- `mode === "all" ? keys.every(test) : keys.some(test)`
abbrev pub by_mode : OsMode → (Text → Bool) → List Text → Bool
by_mode all_of test ks = all test ks
by_mode any_of test ks = any test ks

module _ (platforms_by_hex : Dict (List Platform)) where
  abbrev pub platforms_at : Text → List Platform
  platforms_at hex = get_or (lookup (to_lower_case hex) platforms_by_hex) []

  unfoldable pub os_match : Text → OsSelection → OsMode → Bool
  os_match hex sel mode =
      if is_empty (selected sel)
      then true
      else by_mode mode (has (map (λ p. p.slug) (platforms_at hex))) (selected sel)

  unfoldable pub default_match : Text → OsSelection → OsMode → Bool
  default_match hex sel mode =
      let defaults = filter (λ p. p.is_default) (platforms_at hex) in
      if is_empty (selected sel)
      then not (is_empty defaults)
      else by_mode mode (has (map (λ p. p.slug) defaults)) (selected sel)

  -- `shipsOn`
  unfoldable pub ships_on : Bool → Text → Text → Bool
  ships_on defaults_only hex slug =
      any (λ p. text_eq p.slug slug && (not defaults_only || p.is_default)) (platforms_at hex)

  unfoldable pub os_option_disabled :
      {fl : Floats} → Text → List (ColorEntry fl) → OsSelection → OsMode → Bool → Bool
  unfolding ships_on
  os_option_disabled candidate universe sel all_of defaults_only =
      if any (λ k. text_eq k candidate) (selected sel)
      then false
      else not (
          any (λ c. all (λ s. ships_on defaults_only c.hex s) (selected sel ++ candidate ∷ []))
            universe)
  os_option_disabled candidate universe sel any_of defaults_only =
      if any (λ k. text_eq k candidate) (selected sel)
      then false
      else not (any (λ c. ships_on defaults_only c.hex candidate) universe)

  -- the filter of the grid in islands/Colors.tsx, `osMatches`
  unfoldable pub os_matches : Text → OsSelection → OsMode → Bool → Bool
  unfolding os_match default_match
  os_matches hex sel mode defaults_only =
      os_match hex sel mode && (not defaults_only || default_match hex sel mode)
