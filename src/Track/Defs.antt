-- ===== src/Track/Defs.antt =====
-- lib/track.ts: the beacons that count copies, downloads and visits. The browser is a parameter: what it
-- offers, and whether its calls throw.
use desktopcolors.Common.{
  ℕ, ◌/◌, ◌%◌, List, [], ◌∷◌, ◌++◌, Bool, Text, codes, if◌then◌else◌, ◌==◌, ltb,
}
use desktopcolors.Color.Hex.{digit}
use desktopcolors.Catalog.{Outcome, throws, returns}

pub data TrackEvent : Type 0 where
  copy : Text → Text → TrackEvent
  download : Text → Text → TrackEvent
  osview : Text → TrackEvent

-- One code unit in a JSON string, as `JSON.stringify` writes it; the texts hold no lone surrogate.
unfoldable pub escape_unit : ℕ → Text
unfolding digit
escape_unit c =
    if c == b'"'
    then b'\\' ∷ b'"' ∷ []
    else if c == b'\\'
    then b'\\' ∷ b'\\' ∷ []
    else if c == 8
    then codes "\\b"
    else if c == 9
    then codes "\\t"
    else if c == 10
    then codes "\\n"
    else if c == 12
    then codes "\\f"
    else if c == 13
    then codes "\\r"
    else if ltb c 32
    then b'\\' ∷ b'u' ∷ b'0' ∷ b'0' ∷ digit (c / 16) ∷ digit (c % 16) ∷ []
    else c ∷ []

unfoldable pub escape : Text → Text
unfolding escape_unit
escape [] = []
escape (c ∷ s) = escape_unit c ++ escape s

abbrev pub quote : Text → Text
quote s = b'"' ∷ (escape s ++ b'"' ∷ [])

-- `JSON.stringify(event)`
unfoldable pub stringify : TrackEvent → Text
unfolding escape
stringify (copy hex os) =
    codes "{\"kind\":\"copy\",\"hex\":"
    ++ (quote hex ++ (codes ",\"os\":" ++ (quote os ++ codes "}")))
stringify (download hex os) =
    codes "{\"kind\":\"download\",\"hex\":"
    ++ (quote hex ++ (codes ",\"os\":" ++ (quote os ++ codes "}")))
stringify (osview os) = codes "{\"kind\":\"osview\",\"os\":" ++ (quote os ++ codes "}")

pub record Browser : Type 0 where
  pub has_window : Bool
  pub has_beacon : Bool
  pub beacon_throws : Bool
  pub has_fetch : Bool
  pub fetch_throws : Bool

-- a POST of a body to `/api/event`
pub data Request : Type 0 where
  beacon : Text → Request
  fetched : Text → Request

abbrev pub endpoint : Text
endpoint = codes "/api/event"

-- the `try` block; a `fetch` that is rejected later is ignored
unfoldable pub attempt : Browser → TrackEvent → Outcome (List Request)
unfolding stringify
attempt b event =
    if b.has_beacon
    then if b.beacon_throws then throws [] else returns (beacon (stringify event) ∷ [])
    else if b.has_fetch
    then if b.fetch_throws then throws [] else returns (fetched (stringify event) ∷ [])
    else returns []

-- the `catch` block
abbrev pub caught : Outcome (List Request) → List Request
caught (throws message) = []
caught (returns requests) = requests

unfoldable pub track : Browser → TrackEvent → List Request
unfolding attempt
track b event = if b.has_window then caught (attempt b event) else []
