-- ===== src/SourceNote.antt =====
-- The provenance notes of lib/sourceNote.ts: the tokenizer, the check of the markers against the
-- link map, and the parser that renders.
pub mod Tokens
pub mod Canonical
pub mod Markers
pub mod Links
mod Tests
use desktopcolors.Common.{
  ℕ, zero, suc, ◌+◌, ◌-◌, ◌<◌, List, [], ◌∷◌, ◌++◌, map, Option, none, some, Bool, true, false, not,
  ◌&&◌, ◌||◌, Text, codes, text_eq, ◌==◌, if◌then◌else◌, length, any, filter, Dict, lookup, keys,
}

-- An entry of an object as a read sees it: a value of its own, or what `Object.prototype` has.
pub data Property : Type 0 where
  own : Text → Property
  inherited : Property

pub data SourceNode : Type 0 where
  text : Text → SourceNode
  code : Text → SourceNode
  link : Text → Property → SourceNode

pub data Token : Type 0 where
  text : Text → Token
  code : Text → Token
  marker : Text → Token

-- `s.indexOf(c)` and the slices around it: what stands before the first `c`, and what follows it
unfoldable pub break_at : ℕ → Text → Option (Text × Text)
break_at c [] = none
break_at c (d ∷ s) =
    let later = break_at c s in
    if d == c
    then some ([], s)
    else elim later [ none ↦ none | some (before, after) ↦ some (d ∷ before, after) ]

-- the closer that is looked for behind an opener
unfoldable pub closer_of : ℕ → Option ℕ
closer_of ch = if ch == b'[' then some b']' else if ch == b'`' then some b'`' else none

-- the token that an opener makes of what it encloses
unfoldable pub enclosed : ℕ → Text → Token
enclosed ch inner = if ch == b'[' then Token.marker inner else Token.code inner

unfoldable pub flush : Text → List Token → List Token
flush [] out = out
flush (c ∷ lit) out = out ++ Token.text (c ∷ lit) ∷ []

-- an empty span is no span
unfoldable pub nonempty : Option (Text × Text) → Option (Text × Text)
nonempty none = none
nonempty (some ([], after)) = none
nonempty (some (c ∷ inner, after)) = some (c ∷ inner, after)

-- What one round of the loop finds at `ch` with `rest` behind it: the inner text of a marker or a
-- code span and what follows its closer, or nothing where `ch` is a literal character.
unfoldable pub span_at : ℕ → Text → Option (Text × Text)
unfolding closer_of break_at nonempty
span_at ch rest = elim (closer_of ch) [ none ↦ none | some close ↦ nonempty (break_at close rest) ]

-- The loop over `text`, with what is unread in place of the index. Each round reads at least one
-- character, so the length of the text bounds the rounds.
unfoldable pub tokenize_from : ℕ → Text → Text → List Token → List Token
unfolding span_at flush enclosed
tokenize_from fuel [] lit out = flush lit out
tokenize_from zero (ch ∷ rest) lit out = flush lit out
tokenize_from (suc fuel) (ch ∷ rest) lit out = elim (span_at ch rest) [
  | none ↦ tokenize_from fuel rest (lit ++ ch ∷ []) out
  | some (inner, after) ↦ tokenize_from fuel after [] (flush lit out ++ enclosed ch inner ∷ [])
]

unfoldable pub tokenize_source_note : Text → List Token
unfolding tokenize_from
tokenize_source_note s = tokenize_from (length s) s [] []

-- The distinct labels of the markers, in the order of their first occurrence; `seen` holds the same
-- labels as `out`.
unfoldable pub markers_from : List Token → List Text → List Text
markers_from [] out = out
markers_from (Token.marker label ∷ ts) out =
    let old = markers_from ts out in
    let new = markers_from ts (out ++ label ∷ []) in
    if any (λ k. text_eq k label) out then old else new
markers_from (_ ∷ ts) out = markers_from ts out

unfoldable pub markers_of : Text → List Text
unfolding markers_from tokenize_source_note
markers_of s = markers_from (tokenize_source_note s) []

-- the names that a plain object inherits from `Object.prototype`
abbrev pub inherited_names : List Text
inherited_names =
    codes "constructor"
    ∷ codes "__defineGetter__"
    ∷ codes "__defineSetter__"
    ∷ codes "hasOwnProperty"
    ∷ codes "__lookupGetter__"
    ∷ codes "__lookupSetter__"
    ∷ codes "isPrototypeOf"
    ∷ codes "propertyIsEnumerable"
    ∷ codes "toString"
    ∷ codes "valueOf"
    ∷ codes "__proto__"
    ∷ codes "toLocaleString"
    ∷ []

-- `links[label]`
unfoldable pub property : Text → Dict Text → Option Property
property label links = elim (lookup label links) [
  | some url ↦ some (own url)
  | none ↦ if any (λ k. text_eq k label) inherited_names then some inherited else none
]

-- `label in links`
unfoldable pub is_in : Text → Dict Text → Bool
unfolding property
is_in label links = elim (property label links) [ none ↦ false | some p ↦ true ]

unfoldable pub missing_message : Text → Text
missing_message label =
    codes "source note cites [" ++ (label ++ codes "] but \"links\" has no such entry")

unfoldable pub unused_message : Text → Text
unused_message key =
    codes "source note \"links\" entry \""
    ++ (key ++ (codes "\" is never cited as [" ++ (key ++ codes "] in \"text\"")))

unfoldable pub source_note_link_errors : Text → Dict Text → List Text
unfolding markers_of is_in missing_message unused_message
source_note_link_errors s links =
    let markers = markers_of s in
    map missing_message (filter (λ label. not (is_in label links)) markers)
    ++ map unused_message (filter (λ key. not (any (λ k. text_eq k key) markers)) (keys links))

-- one node of the parsed note
unfoldable pub node_of : Dict Text → Token → SourceNode
unfolding property
node_of links (Token.text value) = SourceNode.text value
node_of links (Token.code value) = SourceNode.code value
node_of links (Token.marker label) = elim (property label links) [
  | none ↦ SourceNode.text (b'[' ∷ (label ++ b']' ∷ []))
  | some url ↦ SourceNode.link label url
]

unfoldable pub parse_source_note : Text → Dict Text → List SourceNode
unfolding tokenize_source_note node_of
parse_source_note s links = map (node_of links) (tokenize_source_note s)
