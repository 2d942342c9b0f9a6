-- ===== src/Scores/Defs.antt =====
-- The functions of lib/scores.ts. Scores are natural numbers, as the counter writes them. The file
-- system is a parameter, and so is the JSON parser as far as the text goes: an object comes with the
-- fields as they are written, of which the value that it makes keeps the last of each name.
use desktopcolors.Common.{
  ℕ, suc, List, [], ◌∷◌, Option, none, some, Bool, true, false, Text, codes, text_eq, to_lower_case,
  show, get_or, if◌then◌else◌, any, Dict, lookup, put,
}
use desktopcolors.SourceNote.{inherited_names}

mutual
  pub data Json : Type 0 where
    null : Json
    bool : Bool → Json
    number : ℕ → Json
    -- a literal beyond the largest double, such as 1e999, is read as infinity
    non_finite : Json
    text : Text → Json
    array : Items → Json
    object : Fields → Json

  pub data Items : Type 0 where
    nil : Items
    cons : Json → Items → Items

  pub data Fields : Type 0 where
    end : Fields
    field : Text → Json → Fields → Fields

pub record Scores : Type 0 where
  pub colors : Dict ℕ
  pub os : Dict ℕ

abbrev pub no_scores : Scores
no_scores = record { colors = []; os = [] }

abbrev pub items_from : ℕ → Items → Dict Json
items_from i nil = []
items_from i (cons v vs) = (show i, v) ∷ items_from (suc i) vs

-- the object that `JSON.parse` makes: a name that is written twice has its last value. That
-- `Object.entries` lists names that are numbers first matters to no score, as two names that
-- `toLowerCase` makes equal are none.
unfoldable pub fields_into : Fields → Dict Json → Dict Json
fields_into end d = d
fields_into (field k v fs) d = fields_into fs (put k v d)

abbrev pub fields : Fields → Dict Json
fields fs = fields_into fs []

-- `Object.entries(raw)` where `raw && typeof raw === "object"`, and nothing elsewhere
abbrev pub entries : Json → Dict Json
entries (array vs) = items_from 0 vs
entries (object fs) = fields fs
entries _ = []

abbrev pub key_of : Bool → Text → Text
key_of lower_keys k = if lower_keys then to_lower_case k else k

-- `out[key] = n`; a number that is set as `__proto__` is dropped
unfoldable pub set_score : Text → ℕ → Dict ℕ → Dict ℕ
set_score key n out = if text_eq key (codes "__proto__") then out else put key n out

-- the loop of `parseBucket`
unfoldable pub bucket_from : Bool → Dict Json → Dict ℕ → Dict ℕ
unfolding set_score
bucket_from lower_keys [] out = out
bucket_from lower_keys ((k, number n) ∷ es) out =
    bucket_from lower_keys es (set_score (key_of lower_keys k) n out)
bucket_from lower_keys ((k, _) ∷ es) out = bucket_from lower_keys es out

-- `undefined` is `none`
unfoldable pub parse_bucket : Option Json → Bool → Dict ℕ
unfolding bucket_from
parse_bucket none lower_keys = []
parse_bucket (some raw) lower_keys = bucket_from lower_keys (entries raw) []

-- an array has neither member, and no object inherits one
unfoldable pub parse_scores : Json → Scores
unfolding parse_bucket fields_into lookup
parse_scores (object fs) = record {
  colors = parse_bucket (lookup (codes "colors") (fields fs)) true;
  os = parse_bucket (lookup (codes "os") (fields fs)) false;
}
parse_scores _ = no_scores

-- what `readFileSync` gives
pub data File : Type 0 where
  contents : Text → File
  missing : File
  unreadable : File

-- what is written to the console
pub data Warning : Type 0 where
  not_found : Warning
  invalid : Text → Warning
  malformed : Text → Warning

-- `loadScores`, with what it logs; `parse` is `JSON.parse`, `none` where that throws
unfoldable pub load_scores : (Text → Option Json) → Text → File → Scores × List Warning
unfolding parse_scores
load_scores parse path missing = (no_scores, not_found ∷ [])
load_scores parse path unreadable = (no_scores, invalid path ∷ [])
load_scores parse path (contents raw) = elim (parse raw) [
  | none ↦ (no_scores, malformed path ∷ [])
  | some json ↦ (parse_scores json, [])
]

-- What is read as a score: a number, or the value of `Object.prototype` under that name, which is none.
pub data Score : Type 0 where
  points : ℕ → Score
  inherited : Score

-- a hex begins with `#`, as no inherited name does
unfoldable pub color_score : Scores → Text → ℕ
color_score scores hex = get_or (lookup (to_lower_case hex) scores.colors) 0

unfoldable pub os_score : Scores → Text → Score
os_score scores slug = elim (lookup slug scores.os) [
  | some n ↦ points n
  | none ↦ if any (λ k. text_eq k slug) inherited_names then inherited else points 0
]
