-- ===== src/SourceNote/Links.antt =====
-- The check of a note's markers against its link map, and what the parser makes of a checked note.
use mathlib.Core.List.{append-nil}
use desktopcolors.Common.{
  List, [], ◌∷◌, map, none, some, ◌≡◌, ◌≢◌, ◌↔◌, ◌⊎◌, inl, inr, refl, sym, ap, run, ◌∙◌, arith,
  Bool, true, false, not, Text, text_eq, text_eq_iff, All, Any, All-map, any, filter, Dict, keys,
  lookup, Option-cases, Bool-cases,
}
use desktopcolors.SourceNote.{
  Token, tokenize_source_note, markers_of, is_in, source_note_link_errors, SourceNode, own,
  inherited, property, node_of, parse_source_note, inherited_names,
}
use desktopcolors.SourceNote.Markers.{
  Cites, IsResolved, filter-eq-nil, map-eq-nil, append-eq-nil, markers_of-All, markers_of_iff,
  at_listed, IsResolved-of_cited, cited_of_IsResolved,
}
use desktopcolors.SourceNote.Tokens.{spell}
use desktopcolors.SourceNote.Canonical.{Lacks, tokenize_source_note-spell_all}

not_of_false : (b : Bool) → not b ≡ false → b ≡ true
not_of_false b e = ground arith

not_of_true : (b : Bool) → b ≡ true → not b ≡ false
not_of_true b e = ground arith

missing_none :
    (s : Text) (links : Dict Text)
    → (filter (λ label. not (is_in label links)) (markers_of s) ≡ [])
      ↔ All (IsResolved links) (tokenize_source_note s)
missing_none s links =
    let lost : Text → Bool = λ label. not (is_in label links) in
    (
      λ e. IsResolved-of_cited links (tokenize_source_note s) (λ label c. not_of_false _ (
          at_listed (λ l. lost l ≡ false) label (markers_of s)
            ((filter-eq-nil lost (markers_of s)).0 e) ((markers_of_iff label s).1 c))),
      λ h. (filter-eq-nil lost (markers_of s)).1 (
          markers_of-All (λ l. lost l ≡ false) s
            (λ l c. not_of_true _ (cited_of_IsResolved links l (tokenize_source_note s) h c))),
    )

unused_none :
    (s : Text) (links : Dict Text)
    → (filter (λ key. not (any (λ k. text_eq k key) (markers_of s))) (keys links) ≡ [])
      ↔ All (λ key. Cites key (tokenize_source_note s)) (keys links)
unused_none s links =
    let unused : Text → Bool = λ key. not (any (λ k. text_eq k key) (markers_of s)) in
    (
      λ e.
          All-map (λ key u. (markers_of_iff key s).0 (not_of_false _ u)) (keys links)
            ((filter-eq-nil unused (keys links)).0 e),
      λ h.
          (filter-eq-nil unused (keys links)).1
            (All-map (λ key c. not_of_true _ ((markers_of_iff key s).1 c)) (keys links) h),
    )

-- The check finds no error exactly when every marker of the note has an entry in the link map (or
-- an inherited one, which `in` accepts too) and every key of the map is cited by some marker.
pub source_note_link_errors-eq-nil :
    (s : Text) (links : Dict Text)
    → (source_note_link_errors s links ≡ []) ↔ (
        All (IsResolved links) (tokenize_source_note s)
        × All (λ key. Cites key (tokenize_source_note s)) (keys links))
unfolding source_note_link_errors
source_note_link_errors-eq-nil s links = (
  λ e.
      let (m, u) = (append-eq-nil _ _).0 e in
      (
        (missing_none s links).0 ((map-eq-nil _ _).0 m),
        (unused_none s links).0 ((map-eq-nil _ _).0 u),
      ),
  λ (m, u). (append-eq-nil _ _).1 (
    (map-eq-nil _ _).1 ((missing_none s links).1 m),
    (map-eq-nil _ _).1 ((unused_none s links).1 u),
  ),
)

-- A node shows its token, and a marker's node is a link: to the address that the map has for the
-- label, or, where it has none, to the value of that name that every object inherits.
abbrev pub Renders : Dict Text → Token → SourceNode → Type 0
Renders links (Token.text s) n = n ≡ SourceNode.text s
Renders links (Token.code s) n = n ≡ SourceNode.code s
Renders links (Token.marker label) n =
    ((url : Text) × (lookup label links ≡ some url) × (n ≡ SourceNode.link label (own url)))
    ⊎ ((lookup label links ≡ none)
        × Any (λ k. k ≡ label) inherited_names
        × (n ≡ SourceNode.link label inherited))

abbrev pub RendersAll : Dict Text → List Token → List SourceNode → Type 0
RendersAll links [] [] = Unit
RendersAll links [] (n ∷ ns) = ⊥
RendersAll links (t ∷ ts) [] = ⊥
RendersAll links (t ∷ ts) (n ∷ ns) = Renders links t n × RendersAll links ts ns

any_listed :
    (label : Text) (names : List Text)
    → any (λ k. text_eq k label) names ≡ true
    → Any (λ k. k ≡ label) names
any_listed label [] h = cc h
any_listed label (k ∷ ks) h = elim (Bool-cases (text_eq k label)) [
  | inl e ↦ inl ((text_eq_iff k label).0 e)
  | inr e ↦ inr (any_listed label ks (ground arith))
]

node_of-Renders :
    (links : Dict Text) (t : Token) → IsResolved links t → Renders links t (node_of links t)
unfolding node_of is_in property
node_of-Renders links (Token.text s) h = refl
node_of-Renders links (Token.code s) h = refl
node_of-Renders links (Token.marker label) h = elim (Option-cases (lookup label links)) [
  | inr (url, e) ↦ inl (url, e, rw (e, property, node_of) refl)
  | inl e ↦ elim (Bool-cases (any (λ k. text_eq k label) inherited_names)) [
    | inl f ↦ inr (e, any_listed label inherited_names f, rw (e, property, f, node_of) refl)
    | inr f ↦ cc (rw (e, property, f, is_in) at h)
  ]
]

map-RendersAll :
    (links : Dict Text) (ts : List Token)
    → All (IsResolved links) ts
    → RendersAll links ts (map (node_of links) ts)
map-RendersAll links [] h = tt
map-RendersAll links (t ∷ ts) h = (node_of-Renders links t h.0, map-RendersAll links ts h.1)

-- A note that passes the check is rendered token by token, and no marker is left as literal brackets:
-- each becomes a link to the address that the map has for its label or, where the map has none and
-- the label is a name that every object inherits, to the inherited value.
pub parse_source_note-RendersAll :
    (s : Text) (links : Dict Text)
    → source_note_link_errors s links ≡ []
    → RendersAll links (tokenize_source_note s) (parse_source_note s links)
unfolding parse_source_note
parse_source_note-RendersAll s links e =
    map-RendersAll links (tokenize_source_note s) ((source_note_link_errors-eq-nil s links).0 e).0

property_inherited :
    (label : Text)
    → any (λ k. text_eq k label) inherited_names ≡ true
    → property label [] ≡ some inherited
unfolding property run
property_inherited label h = rw h

is_in_inherited :
    (label : Text) → any (λ k. text_eq k label) inherited_names ≡ true → is_in label [] ≡ true
unfolding is_in
is_in_inherited label h = rw (property_inherited label h, is_in)

node_of_inherited :
    (label : Text)
    → any (λ k. text_eq k label) inherited_names ≡ true
    → node_of [] (Token.marker label) ≡ SourceNode.link label inherited
unfolding node_of
node_of_inherited label h = rw (property_inherited label h, node_of)

tokenize_marker :
    (label : Text)
    → label ≢ []
    → Lacks b']' label
    → tokenize_source_note (spell (Token.marker label)) ≡ Token.marker label ∷ []
tokenize_marker label n l =
    ap tokenize_source_note (sym (append-nil (spell (Token.marker label))))
    ∙ tokenize_source_note-spell_all (Token.marker label ∷ []) ((n, l), tt)

-- A note that cites a name which every object inherits, such as [constructor], passes the check with
-- an empty link map, and is rendered as a link to an inherited value, which is no URL.
pub parse_source_note_inherited :
    (label : Text)
    → label ≢ []
    → Lacks b']' label
    → any (λ k. text_eq k label) inherited_names ≡ true
    → (source_note_link_errors (spell (Token.marker label)) [] ≡ [])
      × (parse_source_note (spell (Token.marker label)) [] ≡ SourceNode.link label inherited ∷ [])
unfolding parse_source_note
parse_source_note_inherited label n l h =
    let e = tokenize_marker label n l in
    (
      (source_note_link_errors-eq-nil _ []).1 (rw e ((is_in_inherited label h, tt), tt)),
      rw e (ap (λ x. x ∷ []) (node_of_inherited label h)),
    )
