-- ===== src/Detail/Build.antt =====
-- `buildOsDetail` of lib/detail.ts and what it calls. The palettes of lib/ral.ts, which are data files,
-- and `localeCompare` are parameters.
use desktopcolors.Common.{
  List, [], ◌∷◌, ◌++◌, map, Option, none, some, Bool, false, not, ◌&&◌, ◌||◌, Text, codes, text_eq,
  to_lower_case, show, get_or, get_elem?, find?, filter, take, if◌then◌else◌, Dict, lookup, put,
}
use desktopcolors.Content.{DesktopStyle, generic}
use desktopcolors.Color.Floats.{Floats}
use desktopcolors.Color.Hex.{hex_to_rgb}
use desktopcolors.Color.Spaces.{
  RalColor, closest_ral, on_color, hex_to_hsl, rgb_to_lab, lab_to_lch, rgb_to_oklab, degrees,
}
use desktopcolors.Catalog.{Outcome, returns, throws, Catalog, OsView, ColorView, by_slug}
use desktopcolors.Derive.Defs.{
  OsEntry, SimilarColor, similar_colors, EraPeer, era_peers, map_option,
}
use desktopcolors.ColorCatalog.Platforms.{Platform, build_platforms_by_hex}
use desktopcolors.Detail.Defs.{CopyRow, EraPeerView, SimilarOf, DetailColor, OsDetailView}

-- `styleBySlug[o.slug] = o.desktopStyle` for each system
unfoldable pub add_styles : List OsView → Dict DesktopStyle → Dict DesktopStyle
add_styles [] d = d
add_styles (o ∷ os) d = add_styles os (put o.slug o.desktop_style d)

abbrev row : Text → Text → Text → Text → CopyRow
row key label value copy = record {
  key = key;
  label = label;
  value = value;
  copy = copy;
  swatch = none;
}

abbrev commas : Text → Text → Text → Text
commas a b c = a ++ (codes ", " ++ (b ++ (codes ", " ++ c)))

-- `name(a b c)` with `unit` behind the first number
abbrev css : Text → Text → Text → Text → Text → Text
css name unit a b c =
    name ++ (codes "(" ++ (a ++ (unit ++ (codes " " ++ (b ++ (codes " " ++ (c ++ codes ")")))))))

abbrev ral_row : Text → Text → RalColor → CopyRow
ral_row key label r =
    let text = r.code ++ (codes " · " ++ r.name) in
    record { key = key; label = label; value = text; copy = text; swatch = some r.hex }

-- no style for the slug is the generic one
abbrev style_of : Dict DesktopStyle → Text → DesktopStyle
style_of styles slug = get_or (lookup slug styles) generic

abbrev unknown_slug : Text → Text
unknown_slug slug = codes "Unknown OS slug \"" ++ (slug ++ codes "\"")

-- reading a property of `undefined`
abbrev undefined : Text
undefined = codes "Cannot read properties of undefined"

abbrev pub peer_view : (Text → Text) → EraPeer → EraPeerView
peer_view ink p = record {
  peer = p;
  on_color = ink p.hex;
  href = codes "/os/" ++ p.slug;
  meta_line = show p.year ++ (codes " · " ++ p.family);
}

-- `seen.has(hex)`
unfoldable pub is_seen : List Text → Text → Bool
is_seen [] hex = false
is_seen (s ∷ seen) hex = text_eq s hex || is_seen seen hex

module _ (fl : Floats) where
  open fl use {F, num, add, mul, sqrt, lt, to_fixed}

  -- the loop, with the hexes in `seen`
  unfoldable pub dedupe : List Text → List (SimilarColor fl) → List (SimilarColor fl)
  unfolding is_seen
  dedupe seen [] = []
  dedupe seen (c ∷ cs) =
      let skip = dedupe seen cs in
      let keep = c ∷ dedupe (c.hex ∷ seen) cs in if is_seen seen c.hex then skip else keep

  unfoldable pub dedupe_similar_by_hex : List (SimilarColor fl) → List (SimilarColor fl)
  unfolding dedupe
  dedupe_similar_by_hex list = dedupe [] list

  unfoldable pub extra_formats : Text → RalColor → RalColor → List CopyRow
  extra_formats hex ral ral_design =
      let (r, g, b) = hex_to_rgb hex in
      let (l, a, bl) = rgb_to_lab fl r g b in
      let (ll, cc, hh) = lab_to_lch fl l a bl in
      let (ol, oa, ob) = rgb_to_oklab fl r g b in
      let coq = sqrt (add (mul oa oa) (mul ob ob)) in
      let hoq = degrees fl ob oa in
      let n1 = to_fixed 1 in
      let n3 = to_fixed 3 in
      row (codes "lab") (codes "CIELAB") (commas (n1 l) (n1 a) (n1 bl))
        (css (codes "lab") (codes "%") (n1 l) (n1 a) (n1 bl))
      ∷ row (codes "lch") (codes "LCH") (commas (n1 ll) (n1 cc) (n1 hh))
          (css (codes "lch") (codes "%") (n1 ll) (n1 cc) (n1 hh))
      ∷ row (codes "oklab") (codes "OKLab") (commas (n3 ol) (n3 oa) (n3 ob))
          (css (codes "oklab") [] (n3 ol) (n3 oa) (n3 ob))
      ∷ row (codes "oklch") (codes "OKLCH") (commas (n3 ol) (n3 coq) (n1 hoq))
          (css (codes "oklch") [] (n3 ol) (n3 coq) (n1 hoq))
      ∷ ral_row (codes "ral") (codes "Closest RAL Classic") ral
      ∷ ral_row (codes "ralDesign") (codes "Closest RAL Design+") ral_design
      ∷ []

  -- the similar colors that a page shows: at most six, none of them the color itself
  unfoldable pub shown_similar : Text → List OsEntry → Text → List (SimilarColor fl)
  unfolding similar_colors dedupe_similar_by_hex
  shown_similar hex entries slug = take 6 (
      filter (λ s. lt s.match (num 100) && not (text_eq (to_lower_case s.hex) (to_lower_case hex)))
        (dedupe_similar_by_hex (similar_colors fl hex entries slug 24)))

  unfoldable pub similar_view :
      Dict (List Platform) → Dict DesktopStyle → SimilarColor fl → SimilarOf F Platform
  similar_view platforms_by_hex styles s =
      let (h, sat, l) = hex_to_hsl fl s.hex in
      let platforms = get_or (lookup (to_lower_case s.hex) platforms_by_hex) [] in
      let primary : Text = elim (get_elem? platforms 0) [ none ↦ s.os_slug | some p ↦ p.slug ] in
      record {
        hex = s.hex;
        name = s.name;
        match = s.match;
        on_color = on_color fl s.hex;
        h = h;
        s = sat;
        l = l;
        primary_slug = primary;
        style = style_of styles primary;
        platforms = platforms;
      }

  unfoldable pub detail_of :
      List OsEntry
      → Text
      → Dict (List Platform)
      → Dict DesktopStyle
      → ColorView
      → RalColor
      → RalColor
      → DetailColor F
  unfolding shown_similar similar_view extra_formats
  detail_of entries slug platforms_by_hex styles c ral ral_design = record {
    color = c;
    detail = record {
      ral = ral;
      ral_design = ral_design;
      extra_formats = extra_formats c.hex ral ral_design;
      similar = map (similar_view platforms_by_hex styles) (shown_similar c.hex entries slug);
      uses = get_or (lookup (to_lower_case c.hex) platforms_by_hex) [];
    };
  }

  abbrev pub page : OsView → List (DetailColor F) → List EraPeer → OsDetailView F
  page os colors peers = record {
    os = os;
    colors = colors;
    era_peers = map (peer_view (on_color fl)) peers;
  }

  module _ (ral_classic ral_design_plus : List RalColor) (name_before : Text → Text → Bool) where
    unfoldable pub closest_ral_design : Text → Option RalColor
    closest_ral_design hex = closest_ral fl hex ral_design_plus

    -- an empty palette makes the code throw
    unfoldable pub detail_color :
        List OsEntry
        → Text
        → Dict (List Platform)
        → Dict DesktopStyle
        → ColorView
        → Option (DetailColor F)
    unfolding detail_of closest_ral_design
    detail_color entries slug platforms_by_hex styles c = elim (closest_ral fl c.hex ral_classic) [
      | none ↦ none
      | some ral ↦ elim (closest_ral_design c.hex) [
        | none ↦ none
        | some ral_design ↦ some (detail_of entries slug platforms_by_hex styles c ral ral_design)
      ]
    ]

    -- the page of a system that is in the catalog and among the entries
    unfoldable pub detail_view :
        List OsEntry → Catalog → Text → OsView → OsEntry → Outcome (OsDetailView F)
    unfolding add_styles detail_color
    detail_view entries catalog slug os entry =
        let platforms_by_hex = build_platforms_by_hex name_before catalog in
        let styles = add_styles catalog.os_list [] in
        elim (map_option (detail_color entries slug platforms_by_hex styles) os.colors) [
          | none ↦ throws undefined
          | some colors ↦ elim (era_peers entry entries 3) [
            | none ↦ throws undefined
            | some peers ↦ returns (page os colors peers)
          ]
        ]

    unfoldable pub build_os_detail : List OsEntry → Catalog → Text → Outcome (OsDetailView F)
    unfolding detail_view
    build_os_detail entries catalog slug = elim (by_slug catalog slug) [
      | none ↦ throws (unknown_slug slug)
      | some os ↦ elim (find? (λ e. text_eq e.slug slug) entries) [
        | none ↦ throws (unknown_slug slug)
        | some entry ↦ detail_view entries catalog slug os entry
      ]
    ]
