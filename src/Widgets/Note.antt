-- ===== src/Widgets/Note.antt =====
-- islands/SourceNote.tsx: the markup of a parsed note, and where its links lead.
use desktopcolors.Common.{
  List, [], ◌∷◌, ◌++◌, map, none, some, Any, All, All-append, ◌≡◌, ◌⊎◌, inl, inr, refl, ap, ◌∙◌,
  Text, codes, Dict, lookup, Bool-cases, Option-cases, any, text_eq, text_eq_iff, true, false,
  if◌then◌else◌, run,
}
use desktopcolors.SourceNote.{
  Property, own, inherited, SourceNode, Token, property, inherited_names, node_of,
  tokenize_source_note, parse_source_note,
}
use desktopcolors.Preview.Html.{
  Html, Attr, Tag, open_tag, close_tag, content, el, txt, flat_map, href, attr,
}
use desktopcolors.Widgets.Anchors.{attr_hrefs, hrefs, hrefs-append}

-- `href={n.url}`: a function is never written as an attribute. The one inherited value that is none
-- is the object `__proto__`, which is written as its text.
abbrev pub href_of : Text → Property → List Attr
href_of label (own url) = href url ∷ []
href_of label inherited =
    if text_eq label (codes "__proto__") then href (codes "[object Object]") ∷ [] else []

unfoldable pub note_node : SourceNode → Html
note_node (SourceNode.link label url) =
    el "a"
      (href_of label url
        ++ attr "target" (codes "_blank")
          ∷ attr "rel" (codes "noopener")
          ∷ attr "style" (codes "color: var(--accent-strong);")
          ∷ [])
      (txt label)
note_node (SourceNode.code value) =
    el "code" (attr "style" (codes "font: 400 12px var(--font-mono);") ∷ []) (txt value)
note_node (SourceNode.text value) = el "span" [] (txt value)

unfoldable pub source_note_view : List SourceNode → Html
unfolding note_node
source_note_view nodes = flat_map note_node nodes

-- the addresses for the markers of a note, in the order of the note: those that the map declares, and
-- none for other labels but `__proto__`
abbrev pub cited : Dict Text → List Token → List Text
cited links [] = []
cited links (Token.text s ∷ ts) = cited links ts
cited links (Token.code s ∷ ts) = cited links ts
cited links (Token.marker label ∷ ts) = elim (lookup label links) [
  | none ↦
      if text_eq label (codes "__proto__")
      then codes "[object Object]" ∷ cited links ts
      else cited links ts
  | some url ↦ url ∷ cited links ts
]

-- a tag with an address opens it in a new tab, which cannot reach back
abbrev pub IsSafe : Tag → Type 0
IsSafe (open_tag tag attrs) =
    (attr_hrefs attrs [] ≡ [])
    ⊎ (Any (λ a. a ≡ attr "target" (codes "_blank")) attrs
        × Any (λ a. a ≡ attr "rel" (codes "noopener")) attrs)
IsSafe (close_tag tag) = Unit
IsSafe (content s) = Unit

note_node-IsSafe : (n : SourceNode) → All IsSafe (note_node n)
unfolding note_node
note_node-IsSafe (SourceNode.text s) = (inl refl, (tt, (tt, tt)))
note_node-IsSafe (SourceNode.code s) = (inl refl, (tt, (tt, tt)))
note_node-IsSafe (SourceNode.link label inherited) =
    elim (Bool-cases (text_eq label (codes "__proto__"))) [
      | inl e ↦ rw e (inr (inr (inl refl), inr (inr (inl refl))), (tt, (tt, tt)))
      | inr e ↦ rw e (inl refl, (tt, (tt, tt)))
    ]
note_node-IsSafe (SourceNode.link label (own url)) =
    (inr (inr (inl refl), inr (inr (inl refl))), (tt, (tt, tt)))

view-IsSafe : (nodes : List SourceNode) → All IsSafe (source_note_view nodes)
unfolding source_note_view
view-IsSafe [] = tt
view-IsSafe (n ∷ ns) =
    All-append IsSafe (note_node n) (source_note_view ns) (note_node-IsSafe n) (view-IsSafe ns)

-- a name that no object inherits is not `__proto__`
not_proto :
    (label : Text)
    → any (λ k. text_eq k label) inherited_names ≡ false
    → text_eq label (codes "__proto__") ≡ false
not_proto label h = elim (Bool-cases (text_eq label (codes "__proto__"))) [
  | inr e ↦ e
  | inl e ↦
      let same = (text_eq_iff label (codes "__proto__")).0 e in
      let listed : any (λ k. text_eq k (codes "__proto__")) inherited_names ≡ true =
        unfold run in refl in
      cc (rw same at h, listed)
]

-- the links of a marker's node
marker-links :
    (links : Dict Text) (label : Text) (ts : List Token)
    → hrefs (note_node (node_of links (Token.marker label))) ++ cited links ts
      ≡ cited links (Token.marker label ∷ ts)
unfolding note_node node_of property
marker-links links label ts = elim (Option-cases (lookup label links)) [
  | inr (url, e) ↦ rw (e, node_of, property, cited) refl
  | inl e ↦ elim (Bool-cases (any (λ k. text_eq k label) inherited_names)) [
    | inl f ↦ elim (Bool-cases (text_eq label (codes "__proto__"))) [
      | inl g ↦ rw (e, f, g, node_of, property, cited) refl
      | inr g ↦ rw (e, f, g, node_of, property, cited) refl
    ]
    | inr f ↦ let g = not_proto label f in rw (e, f, g, node_of, property, cited) refl
  ]
]

view-links :
    (links : Dict Text) (ts : List Token)
    → hrefs (source_note_view (map (node_of links) ts)) ≡ cited links ts
unfolding source_note_view
view-links links [] = refl
view-links links (t ∷ ts) =
    hrefs-append (note_node (node_of links t)) (source_note_view (map (node_of links) ts))
    ∙ ap (λ l. hrefs (note_node (node_of links t)) ++ l) (view-links links ts)
    ∙ node-links t
  where
    node-links :
        (t : Token) → hrefs (note_node (node_of links t)) ++ cited links ts ≡ cited links (t ∷ ts)
    node-links (Token.text s) = unfold note_node node_of in refl
    node-links (Token.code s) = unfold note_node node_of in refl
    node-links (Token.marker label) = marker-links links label ts

-- The links of a note lead to the addresses that its map declares for its markers, in the order in
-- which the note cites them, and nowhere else, but for the marker [__proto__], which leads to
-- "[object Object]" where the map does not declare it. Each link with an address opens in a new tab
-- without access to the page.
pub source_note_view_lem :
    (s : Text) (links : Dict Text)
    → (hrefs (source_note_view (parse_source_note s links)) ≡ cited links (tokenize_source_note s))
      × All IsSafe (source_note_view (parse_source_note s links))
unfolding parse_source_note
source_note_view_lem s links =
    (view-links links (tokenize_source_note s), view-IsSafe (parse_source_note s links))
