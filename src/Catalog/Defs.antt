-- ===== src/Catalog/Defs.antt =====
-- The records and functions of lib/catalog.ts, and `colorPath` of lib/links.ts. Where the code throws
-- an error the result is its message.
use desktopcolors.Common.{
  ℕ, List, [], ◌∷◌, ◌++◌, map, Option, none, some, Bool, Text, codes, text_eq, to_lower_case, show,
  if◌then◌else◌, length, head_or, ◌==◌,
}
use desktopcolors.Content.{OsColor, OsLink, DesktopStyle}
use desktopcolors.SourceNote.{SourceNode, parse_source_note}
use desktopcolors.Color.Floats.{Floats}
use desktopcolors.Color.Hex.{hex_to_rgb}
use desktopcolors.Color.Spaces.{hex_to_hsl, hex_to_cmyk, on_color}
use desktopcolors.Color.Types.{FamilyKey, ColorTypeKey, hue_family, color_types}
use desktopcolors.Color.Score.{format_score}
use desktopcolors.Derive.Defs.{OsEntry, MergedColor, default_color, merge_colors_by_hex}
use desktopcolors.Scores.{Scores, Score, points, inherited, color_score, os_score}

-- what a function that may throw does: it throws an error with a message, or returns
pub data Outcome {ℓ} (A : Type ℓ) : Type ℓ where
  throws : Text → Outcome A
  returns : A → Outcome A

infixl 5 ◌>>=◌
abbrev pub ◌>>=◌ {ℓ κ} : {A : Type ℓ} {B : Type κ} → Outcome A → (A → Outcome B) → Outcome B
throws message >>= next = throws message
returns value >>= next = next value

pub record ColorView : Type 0 where
  pub hex : Text
  pub name : Text
  pub note : Text
  pub is_default : Bool
  pub rgb : Text
  pub hsl : Text
  pub cmyk : Text
  pub on_color : Text
  pub family : FamilyKey
  pub types : List ColorTypeKey
  pub score : ℕ
  pub score_label : Text

pub record OsRef : Type 0 where
  pub slug : Text
  pub name : Text
  pub year : ℕ

pub record OsView : Type 0 where
  pub slug : Text
  pub name : Text
  pub year : ℕ
  pub added : Text
  pub family : Text
  pub description : Text
  pub desktop_style : DesktopStyle
  pub kind : Option Text
  pub project : Option OsLink
  pub links : List OsLink
  pub wikipedia : Option Text
  pub source : Option (List SourceNode)
  pub colors : List ColorView
  pub default_hex : Text
  pub color_count : ℕ
  pub score : Score
  pub score_label : Text
  pub predecessor : Option OsRef
  pub successor : Option OsRef

pub record MergedColorView : Type 0 where
  pub merged : MergedColor
  pub on_color : Text
  pub types : List ColorTypeKey
  pub score : ℕ
  pub score_label : Text
  pub primary_slug : Text

-- `bySlug` is a map from the slugs of `os_list`; `by_slug` below reads it
pub record Catalog : Type 0 where
  pub os_list : List OsView
  pub colors : List MergedColorView

-- the last view with the slug, as a map that is built from the list has it
unfoldable pub last_with : Text → List OsView → Option OsView
last_with slug [] = none
last_with slug (o ∷ os) = elim (last_with slug os) [
  | some later ↦ some later
  | none ↦ if text_eq o.slug slug then some o else none
]

abbrev pub by_slug : Catalog → Text → Option OsView
by_slug catalog slug = last_with slug catalog.os_list

-- `hex.replace(/^#/, "")` and the path of a color's page
unfoldable pub strip_hash : Text → Text
strip_hash [] = []
strip_hash (c ∷ s) = if c == b'#' then s else c ∷ s

unfoldable pub color_path : Text → Text → Text
unfolding strip_hash
color_path slug hex = codes "/os/" ++ (slug ++ (codes "/" ++ strip_hash hex))

-- `formatScore`, which makes NaN of a value that is no number
unfoldable pub score_text : Score → Text
score_text (points n) = format_score n
score_text inherited = codes "NaNk"

-- the entry with the slug; of several the last, as a map has it
unfoldable pub entry_of : Text → List OsEntry → Option OsEntry
entry_of slug [] = none
entry_of slug (e ∷ es) = elim (entry_of slug es) [
  | some later ↦ some later
  | none ↦ if text_eq e.slug slug then some e else none
]

unfoldable pub unresolved : Text → Text → Text → Text
unresolved field slug from =
    codes "Unresolved "
    ++ (field ++ (codes " \"" ++ (slug ++ (codes "\" referenced by \"" ++ (from ++ codes "\"")))))

-- `refOf`: no slug, or an empty one, is no reference
unfoldable pub ref_of : List OsEntry → Option Text → Text → Text → Outcome (Option OsRef)
unfolding entry_of unresolved
ref_of entries none field from = returns none
ref_of entries (some []) field from = returns none
ref_of entries (some (c ∷ s)) field from = elim (entry_of (c ∷ s) entries) [
  | none ↦ throws (unresolved field (c ∷ s) from)
  | some target ↦
      returns (some (record { slug = c ∷ s; name = target.os.name; year = target.os.year }))
]

module _ (fl : Floats) where
  unfoldable pub to_color_view : OsColor → Scores → ColorView
  to_color_view col scores =
      let key = to_lower_case col.hex in
      let (r, g, b) = hex_to_rgb key in
      let (h, s, l) = hex_to_hsl fl key in
      let (c, m, y, kk) = hex_to_cmyk fl key in
      let score = color_score scores key in
      record {
        hex = key;
        name = col.name;
        note = col.note;
        is_default = col.default;
        rgb = show r ++ (codes ", " ++ (show g ++ (codes ", " ++ show b)));
        hsl = fl.show h ++ (codes "° " ++ (fl.show s ++ (codes "% " ++ (fl.show l ++ codes "%"))));
        cmyk =
            fl.show c
            ++ (codes "% "
                ++ (fl.show m
                    ++ (codes "% " ++ (fl.show y ++ (codes "% " ++ (fl.show kk ++ codes "%"))))));
        on_color = on_color fl key;
        family = hue_family fl h s;
        types = color_types fl key;
        score = score;
        score_label = format_score score;
      }

  -- the view of an entry with its default color and its references
  unfoldable pub make_view : Scores → OsEntry → OsColor → Option OsRef → Option OsRef → OsView
  unfolding to_color_view score_text
  make_view scores e def predecessor successor =
      let score = os_score scores e.slug in
      let label = score_text score in
      let colors = map (λ c. to_color_view c scores) e.os.colors in
      record {
        slug = e.slug;
        name = e.os.name;
        year = e.os.year;
        added = e.os.added;
        family = e.os.family;
        description = e.os.description;
        desktop_style = e.os.desktop_style;
        kind = e.os.kind;
        project = e.os.project;
        links = e.os.links;
        wikipedia = e.os.wikipedia;
        source = elim e.os.source [
          | none ↦ none
          | some note ↦ some (parse_source_note note.text note.links)
        ];
        colors = colors;
        default_hex = to_lower_case def.hex;
        color_count = length colors;
        score = score;
        score_label = label;
        predecessor = predecessor;
        successor = successor;
      }

  -- without colors, which the schema refuses, reading `def.hex` throws
  unfoldable pub os_view : List OsEntry → Scores → OsEntry → Outcome OsView
  unfolding make_view ref_of
  os_view entries scores e = elim (default_color e.os) [
    | none ↦ throws (codes "Cannot read properties of undefined (reading 'hex')")
    | some def ↦ do
      predecessor ← ref_of entries e.os.predecessor (codes "predecessor") e.slug
      successor ← ref_of entries e.os.successor (codes "successor") e.slug
      returns (make_view scores e def predecessor successor)
  ]

  unfoldable pub os_views : List OsEntry → Scores → List OsEntry → Outcome (List OsView)
  unfolding os_view
  os_views entries scores [] = returns []
  os_views entries scores (e ∷ es) =
      os_view entries scores e >>= λ o. os_views entries scores es >>= λ os. returns (o ∷ os)

  unfoldable pub merged_view : Scores → MergedColor → MergedColorView
  merged_view scores m =
      let score = color_score scores m.hex in
      record {
        merged = m;
        on_color = on_color fl m.hex;
        types = color_types fl m.hex;
        score = score;
        score_label = format_score score;
        primary_slug = (head_or (record { slug = []; name = []; year = 0 }) m.platforms).slug;
      }

  unfoldable pub build_catalog : List OsEntry → Scores → Outcome Catalog
  unfolding os_views merged_view
  build_catalog entries scores = os_views entries scores entries >>= λ os_list. returns (record {
    os_list = os_list;
    colors = map (merged_view scores) (merge_colors_by_hex fl entries);
  })
