-- ===== src/Content/Schema.antt =====
-- The records of content/config.ts and lib/desktopStyle.ts, and the schema's own checks.
use desktopcolors.Common.{
  ℕ, List, [], ◌∷◌, Option, none, some, Bool, true, false, ◌&&◌, ◌||◌, Text, codes, text_eq, ◌==◌,
  leb, is_digit, all, filter, length, is_empty, Dict,
}
use desktopcolors.SourceNote.{source_note_link_errors}

pub data DesktopStyle : Type 0 where
  modern win9x win31 platinum beos amiga kde cde gem bleskos blackbox c64 openlook plan9 generic :
      DesktopStyle

pub record OsColor : Type 0 where
  pub hex : Text
  pub name : Text
  pub note : Text
  pub default : Bool

pub record OsLink : Type 0 where
  pub name : Text
  pub url : Text

pub record OsSource : Type 0 where
  pub text : Text
  pub links : Dict Text

-- Years are natural numbers: the schema's `int()` also allows negative ones.
pub record OsInput : Type 0 where
  pub name : Text
  pub year : ℕ
  pub added : Text
  pub family : Text
  pub description : Text
  pub predecessor : Option Text
  pub successor : Option Text
  pub desktop_style : DesktopStyle
  pub kind : Option Text
  pub project : Option OsLink
  pub links : List OsLink
  pub wikipedia : Option Text
  pub source : Option OsSource
  pub colors : List OsColor

unfoldable pub is_lower_hex : ℕ → Bool
unfolding is_digit
is_lower_hex c = is_digit c || (leb b'a' c && leb c b'f')

-- `/^#[0-9a-f]{6}$/`
unfoldable pub is_hex : Text → Bool
unfolding is_lower_hex
is_hex [] = false
is_hex (h ∷ s) = h == b'#' && length s == 6 && all is_lower_hex s

-- `/^[a-z0-9-]+$/`
unfoldable pub is_slug : Text → Bool
unfolding is_digit
is_slug [] = false
is_slug (c ∷ s) = all (λ d. (leb b'a' d && leb d b'z') || is_digit d || d == b'-') (c ∷ s)

-- `/^\d{4}-\d{2}-\d{2}$/`
unfoldable pub is_date : Text → Bool
unfolding is_digit
is_date (a ∷ b ∷ c ∷ d ∷ e ∷ f ∷ g ∷ h ∷ i ∷ j ∷ []) =
    all is_digit (a ∷ b ∷ c ∷ d ∷ f ∷ g ∷ i ∷ j ∷ []) && e == b'-' && h == b'-'
is_date _ = false

-- `min(1)` of a text
abbrev pub is_nonempty {ℓ} : {A : Type ℓ} → List A → Bool
is_nonempty [] = false
is_nonempty (x ∷ xs) = true

abbrev pub optional {ℓ} : {A : Type ℓ} → (A → Bool) → Option A → Bool
optional p none = true
optional p (some a) = p a

-- `protocol` is the URL parser of the platform, `new URL(u).protocol`, and `none` where it throws.
module _ (protocol : Text → Option Text) where
  -- `httpUrl`: the text is a URL, and its protocol is `http:` or `https:`
  unfoldable pub is_http_url : Text → Bool
  is_http_url u = elim (protocol u) [
    | none ↦ false
    | some p ↦ text_eq p (codes "http:") || text_eq p (codes "https:")
  ]

  unfoldable pub is_os_color : OsColor → Bool
  unfolding is_hex
  is_os_color c = is_hex c.hex && is_nonempty c.name

  unfoldable pub is_os_link : OsLink → Bool
  unfolding is_http_url
  is_os_link l = is_nonempty l.name && is_http_url l.url

  -- `osSource`: the record's own checks, then the refinement by `sourceNoteLinkErrors`
  unfoldable pub is_os_source : OsSource → Bool
  unfolding is_http_url
  is_os_source s =
      is_nonempty s.text
      && all (λ (k, u). is_nonempty k && is_http_url u) s.links
      && is_empty (source_note_link_errors s.text s.links)

  -- `osSchema`, with the slug that the file may give
  unfoldable pub is_os_input : Option Text → OsInput → Bool
  unfolding is_os_color is_os_link is_os_source is_slug is_date
  is_os_input slug d =
      is_nonempty d.name
      && optional is_slug slug
      && is_date d.added
      && is_nonempty d.family
      && optional is_nonempty d.kind
      && optional is_os_link d.project
      && all is_os_link d.links
      && optional is_http_url d.wikipedia
      && optional is_os_source d.source
      && is_nonempty d.colors
      && all is_os_color d.colors
      && leb (length (filter (λ c. c.default) d.colors)) 1
