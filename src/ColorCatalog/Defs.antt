-- ===== src/ColorCatalog/Defs.antt =====
-- The tables, records, counts, bands and the ranking of lib/colorCatalog.ts.
use desktopcolors.Common.{
  ℕ, ◌+◌, List, [], ◌∷◌, map, Option, none, some, Bool, true, not, ◌&&◌, ◌||◌, Text, codes,
  if◌then◌else◌, ltb, ◌==◌, filter, any, is_empty, sort,
}
use desktopcolors.Color.Floats.{Floats}
use desktopcolors.Color.Spaces.{hex_to_hsl}
use desktopcolors.Color.Types.{
  FamilyKey, red, orange, yellow, green, teal, blue, purple, pink, achromatic, ColorTypeKey, pastel,
  light, dark, muted, neutral, vivid, neon, jewel, earth, warm, cool,
}
use desktopcolors.Catalog.{Catalog, MergedColorView, color_path}

-- The keys by their place in the source's unions, which tells them apart.
abbrev pub family_index : FamilyKey → ℕ
family_index red = 0
family_index orange = 1
family_index yellow = 2
family_index green = 3
family_index teal = 4
family_index blue = 5
family_index purple = 6
family_index pink = 7
family_index achromatic = 8

abbrev pub type_index : ColorTypeKey → ℕ
type_index pastel = 0
type_index light = 1
type_index dark = 2
type_index muted = 3
type_index neutral = 4
type_index vivid = 5
type_index neon = 6
type_index jewel = 7
type_index earth = 8
type_index warm = 9
type_index cool = 10

-- `a === b` on keys
abbrev pub same_family : FamilyKey → FamilyKey → Bool
same_family a b = family_index a == family_index b

abbrev pub same_type : ColorTypeKey → ColorTypeKey → Bool
same_type a b = type_index a == type_index b

pub record Def {ℓ} (K : Type ℓ) : Type ℓ where
  pub key : K
  pub name : Text
  pub chip : Text

abbrev pub def {ℓ} : {K : Type ℓ} → K → Text → Text → Def K
def key name chip = record { key = key; name = name; chip = chip }

abbrev pub family_defs : List (Def FamilyKey)
family_defs =
    def red (codes "Reds") (codes "#cc3333")
    ∷ def orange (codes "Oranges") (codes "#d2762f")
    ∷ def yellow (codes "Yellows") (codes "#d8c020")
    ∷ def green (codes "Greens") (codes "#4e9a5f")
    ∷ def teal (codes "Teals") (codes "#2aa5a5")
    ∷ def blue (codes "Blues") (codes "#3a6ea5")
    ∷ def purple (codes "Purples") (codes "#8a5cc0")
    ∷ def pink (codes "Pinks") (codes "#c0559a")
    ∷ def achromatic (codes "Achromatic") (codes "#9a9a96")
    ∷ []

abbrev pub color_type_defs : List (Def ColorTypeKey)
color_type_defs =
    def neutral (codes "Neutral") (codes "#9a9a96")
    ∷ def light (codes "Light") (codes "#e6e6e6")
    ∷ def dark (codes "Dark") (codes "#2b303c")
    ∷ def warm (codes "Warm") (codes "#d2762f")
    ∷ def cool (codes "Cool") (codes "#3a6ea5")
    ∷ def muted (codes "Muted") (codes "#8f978f")
    ∷ def vivid (codes "Vivid") (codes "#e0512f")
    ∷ def pastel (codes "Pastel") (codes "#c9b6e8")
    ∷ def earth (codes "Earth") (codes "#8a5a2b")
    ∷ def jewel (codes "Jewel") (codes "#7a1f5c")
    ∷ def neon (codes "Neon") (codes "#16d6c1")
    ∷ []

pub data Sort : Type 0 where
  spectrum pop : Sort

-- `!opts.family || c.family === opts.family`
abbrev pub in_family : Option FamilyKey → FamilyKey → Bool
in_family none f = true
in_family (some k) f = same_family f k

-- an object with a count for each key, as a function
abbrev pub Counts : Type 0 → Type 0
Counts K = K → ℕ

module _ (fl : Floats) where
  open fl use {F, num, mul, div, round, lt, eq}

  pub record ColorEntry : Type 0 where
    pub hex : Text
    pub name : Text
    pub family : FamilyKey
    pub types : List ColorTypeKey
    pub h : F
    pub s : F
    pub l : F
    pub on_color : Text
    pub score : ℕ
    pub score_label : Text
    pub year_range : Text
    pub primary_slug : Text
    pub href : Text

  unfoldable pub to_color_entry : MergedColorView → ColorEntry
  to_color_entry c =
      let (h, s, l) = hex_to_hsl fl c.merged.hex in
      record {
        hex = c.merged.hex;
        name = c.merged.name;
        family = c.merged.family;
        types = c.types;
        h = h;
        s = s;
        l = l;
        on_color = c.on_color;
        score = c.score;
        score_label = c.score_label;
        year_range = c.merged.year_range;
        primary_slug = c.primary_slug;
        href = color_path c.primary_slug c.merged.hex;
      }

  unfoldable pub to_color_entries : Catalog → List ColorEntry
  unfolding to_color_entry
  to_color_entries catalog = map to_color_entry catalog.colors

  -- `out[k]++`
  abbrev pub bump {ℓ} : {K : Type ℓ} → (K → K → Bool) → K → (K → ℕ) → K → ℕ
  bump same k out j = if same j k then out j + 1 else out j

  unfoldable pub count_families : List ColorEntry → Counts FamilyKey → Counts FamilyKey
  count_families [] out = out
  count_families (c ∷ cs) out = count_families cs (bump same_family c.family out)

  unfoldable pub family_counts : List ColorEntry → Counts FamilyKey
  unfolding count_families
  family_counts colors = count_families colors (λ k. 0)

  unfoldable pub count_each : List ColorTypeKey → Counts ColorTypeKey → Counts ColorTypeKey
  count_each [] out = out
  count_each (t ∷ ts) out = count_each ts (bump same_type t out)

  unfoldable pub count_types : List ColorEntry → Counts ColorTypeKey → Counts ColorTypeKey
  unfolding count_each
  count_types [] out = out
  count_types (c ∷ cs) out = count_types cs (count_each c.types out)

  unfoldable pub type_counts : List ColorEntry → Counts ColorTypeKey
  unfolding count_types
  type_counts colors = count_types colors (λ k. 0)

  -- the comparators `spectrumCmp` and `popCmp`, as "comes before"
  abbrev pub before : Sort → ColorEntry → ColorEntry → Bool
  before spectrum a b = lt a.h b.h || (eq a.h b.h && lt a.l b.l)
  before pop a b = ltb b.score a.score || (b.score == a.score && lt a.h b.h)

  pub record Band : Type 0 where
    pub key : FamilyKey
    pub name : Text
    pub chip : Text
    pub colors : List ColorEntry

  pub record BandOptions : Type 0 where
    pub family : Option FamilyKey
    pub types : List ColorTypeKey
    pub sort_by : Sort

  unfoldable pub matches : BandOptions → ColorEntry → Bool
  matches opts c =
      in_family opts.family c.family
      && (is_empty opts.types || any (λ t. any (λ u. same_type u t) c.types) opts.types)

  unfoldable pub make_band : List ColorEntry → BandOptions → Def FamilyKey → Band
  unfolding matches
  make_band colors opts d = record {
    key = d.key;
    name = d.name;
    chip = d.chip;
    colors =
        sort (before opts.sort_by)
          (filter (λ c. same_family c.family d.key && matches opts c) colors);
  }

  abbrev pub band_is_nonempty : Band → Bool
  band_is_nonempty b = not (is_empty b.colors)

  unfoldable pub group_into_bands : List ColorEntry → BandOptions → List Band
  unfolding make_band
  group_into_bands colors opts =
      filter band_is_nonempty
        (map (make_band colors opts) (filter (λ d. in_family opts.family d.key) family_defs))

  pub record Ranked : Type 0 where
    pub color : ColorEntry
    pub rank : ℕ
    pub pct : F

  unfoldable pub max_score : List ColorEntry → ℕ → ℕ
  max_score [] mx = mx
  max_score (c ∷ cs) mx = max_score cs (if ltb mx c.score then c.score else mx)

  -- `map` with the index
  unfoldable pub rank_from : ℕ → ℕ → List ColorEntry → List Ranked
  rank_from top i [] = []
  rank_from top i (c ∷ cs) =
      record {
        color = c;
        rank = i + 1;
        pct = if ltb 0 top then round (mul (div (num c.score) (num top)) (num 100)) else num 0;
      }
      ∷ rank_from top (i + 1) cs

  unfoldable pub rank_colors : List ColorEntry → Option FamilyKey → Sort → List Ranked
  unfolding max_score rank_from
  rank_colors colors family by =
      let filtered = filter (λ c. in_family family c.family) colors in
      rank_from (max_score filtered 0) 0 (sort (before by) filtered)
