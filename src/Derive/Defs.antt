-- ===== src/Derive/Defs.antt =====
-- The functions of lib/derive.ts.
use desktopcolors.Common.{
  ℕ, ◌+◌, ◌-◌, List, [], ◌∷◌, ◌++◌, map, Option, none, some, Bool, not, ◌&&◌, Text, codes, text_eq,
  to_lower_case, show, get_or, ltb, leb, ◌==◌, if◌then◌else◌, filter, find?, get_elem?, head_or,
  last_or, take, sort, Dict, lookup, put,
}
use desktopcolors.Content.{OsInput, OsColor}
use desktopcolors.Color.Floats.{Floats}
use desktopcolors.Color.Spaces.{hex_to_hsl, hex_to_oklab, oklab_distance, max}
use desktopcolors.Color.Types.{FamilyKey, hue_family}

pub record OsEntry : Type 0 where
  pub slug : Text
  pub os : OsInput

-- `data.colors.find((c) => c.default) ?? data.colors[0]`; `none` is `undefined`
unfoldable pub default_color : OsInput → Option OsColor
default_color os = elim (find? (λ c. c.default) os.colors) [
  | some c ↦ some c
  | none ↦ get_elem? os.colors 0
]

-- one place where a color ships, in the order of the entries
pub record Shipped : Type 0 where
  pub slug : Text
  pub name : Text
  pub year : ℕ

pub record Group : Type 0 where
  pub hex : Text
  pub names : Dict ℕ
  pub default_name : Option Text
  pub platforms : List Shipped

pub record MergedColor : Type 0 where
  pub hex : Text
  pub name : Text
  pub platforms : List Shipped
  pub year_range : Text
  pub family : FamilyKey

abbrev pub new_group : Text → Group
new_group key = record { hex = key; names = []; default_name = none; platforms = [] }

-- what a color of an entry adds to the group of its hex
unfoldable pub add_to_group : OsEntry → OsColor → Group → Group
add_to_group e c acc = record {
  hex = acc.hex;
  names = put c.name (get_or (lookup c.name acc.names) 0 + 1) acc.names;
  default_name = if c.default then some c.name else acc.default_name;
  platforms = acc.platforms ++ record { slug = e.slug; name = e.os.name; year = e.os.year } ∷ [];
}

-- one round of the inner loop; a group is an object that the map holds, so it is put back
unfoldable pub merge_color : OsEntry → OsColor → Dict Group → Dict Group
unfolding add_to_group
merge_color e c groups =
    let key = to_lower_case c.hex in
    put key (add_to_group e c (get_or (lookup key groups) (new_group key))) groups

unfoldable pub merge_colors : OsEntry → List OsColor → Dict Group → Dict Group
unfolding merge_color
merge_colors e [] groups = groups
merge_colors e (c ∷ cs) groups = merge_colors e cs (merge_color e c groups)

unfoldable pub merge_entries : List OsEntry → Dict Group → Dict Group
unfolding merge_colors
merge_entries [] groups = groups
merge_entries (e ∷ es) groups = merge_entries es (merge_colors e e.os.colors groups)

-- the name used most often, the earliest of several
unfoldable pub common_name : Dict ℕ → Text
common_name names = (head_or ([], 0) (sort (λ a b. ltb b.1 a.1) names)).0

unfoldable pub year_range : List Shipped → Text
year_range platforms =
    let years = sort ltb (map (λ p. p.year) platforms) in
    let lo = head_or 0 years in
    let hi = last_or 0 years in if lo == hi then show lo else show lo ++ (codes "–" ++ show hi)

module _ (fl : Floats) where
  open fl use {F, num, dec, sub, mul, div, round, lt}

  unfoldable pub merged_of : Group → MergedColor
  unfolding common_name year_range
  merged_of acc =
      let (h, s, l) = hex_to_hsl fl acc.hex in
      record {
        hex = acc.hex;
        name = get_or acc.default_name (common_name acc.names);
        platforms = acc.platforms;
        year_range = year_range acc.platforms;
        family = hue_family fl h s;
      }

  unfoldable pub merge_colors_by_hex : List OsEntry → List MergedColor
  unfolding merge_entries merged_of
  merge_colors_by_hex entries = map (λ (k, acc). merged_of acc) (merge_entries entries [])

  pub record SimilarColor : Type 0 where
    pub hex : Text
    pub name : Text
    pub os_slug : Text
    pub os_name : Text
    pub distance : F
    pub match : F

  unfoldable pub similar_of : F × F × F → OsEntry → OsColor → SimilarColor
  similar_of target e c =
      let distance = oklab_distance fl target (hex_to_oklab fl c.hex) in
      record {
        hex = to_lower_case c.hex;
        name = c.name;
        os_slug = e.slug;
        os_name = e.os.name;
        distance = distance;
        match = max fl (num 0) (round (mul (num 100) (sub (num 1) (div distance (dec 4 1)))));
      }

  -- the nested loops
  unfoldable pub all_similar : F × F × F → List OsEntry → Text → List SimilarColor
  unfolding similar_of
  all_similar target [] exclude_slug = []
  all_similar target (e ∷ es) exclude_slug =
      let rest = all_similar target es exclude_slug in
      if text_eq e.slug exclude_slug then rest else map (similar_of target e) e.os.colors ++ rest

  unfoldable pub similar_colors : Text → List OsEntry → Text → ℕ → List SimilarColor
  unfolding all_similar
  similar_colors hex entries exclude_slug limit = take limit (
      sort (λ a b. lt a.distance b.distance)
        (all_similar (hex_to_oklab fl hex) entries exclude_slug))

pub record EraPeer : Type 0 where
  pub slug : Text
  pub name : Text
  pub family : Text
  pub year : ℕ
  pub hex : Text
  pub color_name : Text
  pub rel : Text

-- `Math.abs(a - b)`
abbrev pub years_apart : ℕ → ℕ → ℕ
years_apart a b = (a - b) + (b - a)

unfoldable pub relation : ℕ → ℕ → Text
relation year base =
    if year == base
    then codes "same year"
    else show (years_apart year base)
      ++ (codes " yr " ++ (if ltb year base then codes "earlier" else codes "later"))

unfoldable pub make_peer : ℕ → OsEntry → OsColor → EraPeer
unfolding relation
make_peer base e def = record {
  slug = e.slug;
  name = e.os.name;
  family = e.os.family;
  year = e.os.year;
  hex = to_lower_case def.hex;
  color_name = def.name;
  rel = relation e.os.year base;
}

-- an entry without colors, which the schema refuses, makes the code throw
unfoldable pub peer_of : ℕ → OsEntry → Option EraPeer
unfolding default_color make_peer
peer_of base e = elim (default_color e.os) [ none ↦ none | some def ↦ some (make_peer base e def) ]

unfoldable pub is_peer : OsEntry → ℕ → OsEntry → Bool
is_peer entry window e =
    not (text_eq e.slug entry.slug) && leb (years_apart e.os.year entry.os.year) window

unfoldable pub cons_option {ℓ} : {A : Type ℓ} → Option A → Option (List A) → Option (List A)
cons_option (some x) (some xs) = some (x ∷ xs)
cons_option _ _ = none

-- `map` with a function that may throw
unfoldable pub map_option {ℓ κ} :
    {A : Type ℓ} {B : Type κ} → (A → Option B) → List A → Option (List B)
unfolding cons_option
map_option f [] = some []
map_option f (x ∷ xs) = cons_option (f x) (map_option f xs)

-- `none` where the code throws
unfoldable pub era_peers : OsEntry → List OsEntry → ℕ → Option (List EraPeer)
unfolding is_peer peer_of map_option
era_peers entry entries window =
    elim (map_option (peer_of entry.os.year) (filter (is_peer entry window) entries)) [
      | none ↦ none
      | some peers ↦ some (sort (λ a b. ltb a.year b.year) peers)
    ]
