-- ===== src/ColorCatalog/Query.antt =====
-- `matchesColorQuery` of lib/colorCatalog.ts: the free-text search over the colors.
use desktopcolors.Common.{
  ℕ, ◌+◌, List, [], ◌∷◌, ◌++◌, map, none, some, Bool, false, ◌&&◌, ◌||◌, ◌≡◌, ap, ◌∙◌, Text, codes,
  to_lower_case, to_lower_case_idem, trim, trim-to_lower_case, includes, join, is_digit,
  digits_value, get_or, if◌then◌else◌, find?, all, is_empty, length, last_or, leb, ◌==◌, Dict,
  lookup,
}
use desktopcolors.Color.Floats.{Floats}
use desktopcolors.Color.Types.{
  FamilyKey, red, orange, yellow, green, teal, blue, purple, pink, achromatic, ColorTypeKey, pastel,
  light, dark, muted, neutral, vivid, neon, jewel, earth, warm, cool,
}
use desktopcolors.ColorCatalog.Defs.{
  ColorEntry, same_family, same_type, family_defs, color_type_defs,
}
use desktopcolors.ColorCatalog.Platforms.{Platform}

-- the keys as the strings that they are
unfoldable pub family_text : FamilyKey → Text
family_text red = codes "red"
family_text orange = codes "orange"
family_text yellow = codes "yellow"
family_text green = codes "green"
family_text teal = codes "teal"
family_text blue = codes "blue"
family_text purple = codes "purple"
family_text pink = codes "pink"
family_text achromatic = codes "achromatic"

unfoldable pub type_text : ColorTypeKey → Text
type_text pastel = codes "pastel"
type_text light = codes "light"
type_text dark = codes "dark"
type_text muted = codes "muted"
type_text neutral = codes "neutral"
type_text vivid = codes "vivid"
type_text neon = codes "neon"
type_text jewel = codes "jewel"
type_text earth = codes "earth"
type_text warm = codes "warm"
type_text cool = codes "cool"

-- `COLOR_TYPE_DEFS.find((d) => d.key === t)?.name ?? t`, and for families `?? ""`
unfoldable pub type_name : ColorTypeKey → Text
unfolding type_text
type_name t = elim (find? (λ d. same_type d.key t) color_type_defs) [
  | none ↦ type_text t
  | some d ↦ d.name
]

unfoldable pub family_name : FamilyKey → Text
family_name f = elim (find? (λ d. same_family d.key f) family_defs) [ none ↦ [] | some d ↦ d.name ]

-- `/^\d{4}$/.test(q)`
abbrev pub is_year : Text → Bool
is_year q = length q == 4 && all is_digit q

-- The numbers of `s.match(/\d{4}/g)`: a run of digits is cut in fours from its left. `run` holds the
-- digits of a four that is not complete yet, and `n` their number.
unfoldable pub years_in : ℕ → Text → Text → List ℕ
unfolding is_digit digits_value
years_in n run [] = []
years_in n run (c ∷ s) =
    let full = digits_value 0 (run ++ c ∷ []) ∷ years_in 0 [] s in
    let more = years_in (n + 1) (run ++ c ∷ []) s in
    let skip = years_in 0 [] s in if is_digit c then (if n == 3 then full else more) else skip

-- a year from the first to the last that the text names
unfoldable pub spans : List ℕ → ℕ → Bool
spans [] y = false
spans (a ∷ ys) y = leb a y && leb y (last_or a ys)

module _ (fl : Floats) where
  -- everything that is searched, in lower case
  unfoldable pub haystack : ColorEntry fl → Dict (List Platform) → Text
  unfolding family_name family_text type_name
  haystack c platforms_by_hex =
      let type_names = join (map type_name c.types) (codes " ") in
      let oses =
        join
          (map (λ p. p.name ++ (codes " " ++ p.family))
            (get_or (lookup (to_lower_case c.hex) platforms_by_hex) []))
          (codes " ") in
      to_lower_case (
        join
          (c.name
            ∷ family_name c.family
            ∷ family_text c.family
            ∷ c.hex
            ∷ c.year_range
            ∷ type_names
            ∷ oses
            ∷ [])
          (codes " "))

  -- the test of a query that is trimmed and in lower case
  unfoldable pub matches_query : ColorEntry fl → Text → Dict (List Platform) → Bool
  unfolding haystack years_in spans
  matches_query c q platforms_by_hex =
      is_empty q
      || includes (haystack c platforms_by_hex) q
      || (is_year q && spans (years_in 0 [] c.year_range) (digits_value 0 q))

  unfoldable pub matches_color_query : ColorEntry fl → Text → Dict (List Platform) → Bool
  unfolding matches_query
  matches_color_query c query platforms_by_hex =
      matches_query c (to_lower_case (trim query)) platforms_by_hex

  -- The case of the letters of a query does not matter.
  pub matches_color_query-to_lower_case :
      (c : ColorEntry fl) (query : Text) (platforms_by_hex : Dict (List Platform))
      → matches_color_query c (to_lower_case query) platforms_by_hex
        ≡ matches_color_query c query platforms_by_hex
  unfolding matches_color_query
  matches_color_query-to_lower_case c query platforms_by_hex =
      ap (λ q. matches_query c q platforms_by_hex)
        (ap to_lower_case (trim-to_lower_case query) ∙ to_lower_case_idem (trim query))
