-- ===== src/Detail/Defs.antt =====
-- The records of lib/detail.ts, and the functions that pack them for the browser. A record of the page
-- and its form on the wire differ in how they hold the platforms, which is their parameter here.
use desktopcolors.Common.{
  ℕ, List, [], ◌∷◌, ◌++◌, map, Option, none, some, Bool, not, ◌&&◌, Text, codes, text_eq,
  to_lower_case, get_elem?, find?, is_empty, Dict, lookup, put,
}
use desktopcolors.Content.{DesktopStyle}
use desktopcolors.Color.Spaces.{RalColor}
use desktopcolors.Catalog.{OsView, ColorView}
use desktopcolors.Derive.Defs.{EraPeer, map_option}
use desktopcolors.ColorCatalog.Platforms.{Platform}

pub record CopyRow : Type 0 where
  pub key : Text
  pub label : Text
  pub value : Text
  pub copy : Text
  pub swatch : Option Text

pub record EraPeerView : Type 0 where
  pub peer : EraPeer
  pub on_color : Text
  pub href : Text
  pub meta_line : Text

pub record PlatformRef : Type 0 where
  pub slug : Text
  pub is_default : Bool

pub record OsMeta : Type 0 where
  pub name : Text
  pub year : ℕ
  pub family : Text

-- `SimilarView` with its platforms in full, `SimilarViewWire` with references
pub record SimilarOf (F P : Type 0) : Type 0 where
  pub hex : Text
  pub name : Text
  pub match : F
  pub on_color : Text
  pub h : F
  pub s : F
  pub l : F
  pub primary_slug : Text
  pub style : DesktopStyle
  pub platforms : List P

-- `ColorDetail`, and `ColorDetailWire` with references
pub record DetailOf (F P : Type 0) : Type 0 where
  pub ral : RalColor
  pub ral_design : RalColor
  pub extra_formats : List CopyRow
  pub similar : List (SimilarOf F P)
  pub uses : List P

-- a `ColorView` with its detail
pub record DetailColor (F : Type 0) : Type 0 where
  pub color : ColorView
  pub detail : DetailOf F Platform

pub record OsDetailView (F : Type 0) : Type 0 where
  pub os : OsView
  pub colors : List (DetailColor F)
  pub era_peers : List EraPeerView

pub record OsViewJson (F : Type 0) : Type 0 where
  pub os_meta : Dict OsMeta
  pub details : List (DetailOf F PlatformRef)

pub record OsDetailBootstrap (F : Type 0) : Type 0 where
  pub os : OsView
  pub era_peers : List EraPeerView
  pub initial_hex : Option Text
  pub details_by_hex : Dict (DetailOf F Platform)
  pub view_url : Text

abbrev pub ref_of : Platform → PlatformRef
ref_of p = record { slug = p.slug; is_default = p.is_default }

abbrev pub meta_of : Platform → OsMeta
meta_of p = record { name = p.name; year = p.year; family = p.family }

-- `osMeta[p.slug] ??= ...`
unfoldable pub note : Platform → Dict OsMeta → Dict OsMeta
note p d = elim (lookup p.slug d) [ some m ↦ d | none ↦ put p.slug (meta_of p) d ]

unfoldable pub note_all : List Platform → Dict OsMeta → Dict OsMeta
unfolding note
note_all [] d = d
note_all (p ∷ ps) d = note_all ps (note p d)

-- the page of a hydrated platform
abbrev pub hydrated : PlatformRef → OsMeta → Platform
hydrated r m = record {
  slug = r.slug;
  name = m.name;
  year = m.year;
  family = m.family;
  is_default = r.is_default;
}

-- a slug without an entry in the table makes the code throw
unfoldable pub hydrate : Dict OsMeta → PlatformRef → Option Platform
hydrate d r = elim (lookup r.slug d) [ none ↦ none | some m ↦ some (hydrated r m) ]

module _ {F : Type 0} where
  -- `{ ...s, platforms }`
  abbrev pub with_platforms : {P Q : Type 0} → SimilarOf F P → List Q → SimilarOf F Q
  with_platforms s ps = record {
    hex = s.hex;
    name = s.name;
    match = s.match;
    on_color = s.on_color;
    h = s.h;
    s = s.s;
    l = s.l;
    primary_slug = s.primary_slug;
    style = s.style;
    platforms = ps;
  }

  abbrev pub with_uses :
      {P Q : Type 0} → DetailOf F P → List (SimilarOf F Q) → List Q → DetailOf F Q
  with_uses d similar uses = record {
    ral = d.ral;
    ral_design = d.ral_design;
    extra_formats = d.extra_formats;
    similar = similar;
    uses = uses;
  }

  unfoldable pub pick_color_detail : DetailColor F → DetailOf F Platform
  pick_color_detail dc = with_uses dc.detail dc.detail.similar dc.detail.uses

  unfoldable pub note_similar : List (SimilarOf F Platform) → Dict OsMeta → Dict OsMeta
  unfolding note_all
  note_similar [] d = d
  note_similar (s ∷ ss) d = note_similar ss (note_all s.platforms d)

  -- the platforms are noted color by color: first its uses, then those of its similar colors
  unfoldable pub note_details : List (DetailOf F Platform) → Dict OsMeta → Dict OsMeta
  unfolding note_similar
  note_details [] d = d
  note_details (c ∷ cs) d = note_details cs (note_similar c.similar (note_all c.uses d))

  unfoldable pub to_wire : DetailOf F Platform → DetailOf F PlatformRef
  to_wire d =
      with_uses d (map (λ s. with_platforms s (map ref_of s.platforms)) d.similar)
        (map ref_of d.uses)

  unfoldable pub normalize_details : List (DetailOf F Platform) → OsViewJson F
  unfolding note_details to_wire
  normalize_details details = record {
    os_meta = note_details details [];
    details = map to_wire details;
  }

  unfoldable pub hydrate_similar :
      Dict OsMeta → SimilarOf F PlatformRef → Option (SimilarOf F Platform)
  unfolding hydrate map_option
  hydrate_similar d s = elim (map_option (hydrate d) s.platforms) [
    | none ↦ none
    | some ps ↦ some (with_platforms s ps)
  ]

  unfoldable pub hydrate_detail :
      Dict OsMeta → DetailOf F PlatformRef → Option (DetailOf F Platform)
  unfolding hydrate_similar
  hydrate_detail d c = elim (map_option (hydrate_similar d) c.similar) [
    | none ↦ none
    | some similar ↦ elim (map_option (hydrate d) c.uses) [
      | none ↦ none
      | some uses ↦ some (with_uses c similar uses)
    ]
  ]

  -- `none` where the code throws
  unfoldable pub denormalize_details : OsViewJson F → Option (List (DetailOf F Platform))
  unfolding hydrate_detail
  denormalize_details json = map_option (hydrate_detail json.os_meta) json.details

  unfoldable pub os_view_json_from_view : OsDetailView F → OsViewJson F
  unfolding normalize_details pick_color_detail
  os_view_json_from_view view = normalize_details (map pick_color_detail view.colors)

  -- `list.find(test) ?? list[0]`
  abbrev pub default_detail : List (DetailColor F) → Option (DetailColor F)
  default_detail colors = elim (find? (λ c. c.color.is_default) colors) [
    | some c ↦ some c
    | none ↦ get_elem? colors 0
  ]

  abbrev pub has_hex : Text → DetailColor F → Bool
  has_hex hex c = text_eq (to_lower_case c.color.hex) (to_lower_case hex)

  -- `colors[idx]` with the index of the first color that has the hex; no hex, or an empty one, has none
  unfoldable pub choose : List (DetailColor F) → Option Text → Option (DetailColor F)
  choose colors none = default_detail colors
  choose colors (some hex) = elim (find? (λ c. not (is_empty hex) && has_hex hex c) colors) [
    | some c ↦ some c
    | none ↦ default_detail colors
  ]

  unfoldable pub started : OsDetailView F → Option Text → DetailColor F → OsDetailBootstrap F
  unfolding pick_color_detail
  started view initial_hex chosen = record {
    os = view.os;
    era_peers = view.era_peers;
    initial_hex = initial_hex;
    details_by_hex = (to_lower_case chosen.color.hex, pick_color_detail chosen) ∷ [];
    view_url = codes "/os/" ++ (view.os.slug ++ codes "/view.json");
  }

  -- without colors, reading `chosen.hex` throws
  unfoldable pub bootstrap_from_view : OsDetailView F → Option Text → Option (OsDetailBootstrap F)
  unfolding choose started
  bootstrap_from_view view initial_hex = elim (choose view.colors initial_hex) [
    | none ↦ none
    | some chosen ↦ some (started view initial_hex chosen)
  ]
