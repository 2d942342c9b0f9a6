-- ===== src/Preview/Html.antt =====
-- The markup that a component renders: its tags in order, with their attributes. The `key` of an element of
-- a list is left out, as it does not reach the page.
use Prim.Native.String.{String}
use desktopcolors.Common.{
  ℕ, zero, suc, List, [], ◌∷◌, ◌++◌, Option, none, some, Bool, true, false, Text, codes,
}

-- a style object keeps its properties; `data-testid` and `href` are attributes of their own
pub data Attr : Type 0 where
  test_id : Text → Attr
  href : Text → Attr
  attr : String → Text → Attr
  style : List (Text × Text) → Attr

pub data Tag : Type 0 where
  open_tag : String → List Attr → Tag
  close_tag : String → Tag
  content : Text → Tag

abbrev pub Html : Type 0
Html = List Tag

-- `<tag ...>children</tag>`
abbrev pub el : String → List Attr → Html → Html
el tag attrs children = open_tag tag attrs ∷ (children ++ close_tag tag ∷ [])

abbrev pub txt : Text → Html
txt s = content s ∷ []

abbrev pub together : List Html → Html
together [] = []
together (h ∷ hs) = h ++ together hs

-- an element with a style and children
abbrev pub styled : String → Text → List Html → Html
styled tag s children = el tag (attr "style" s ∷ []) (together children)

abbrev pub span_of : Text → List Html → Html
span_of s children = styled "span" s children

abbrev pub div_of : Text → List Html → Html
div_of s children = styled "div" s children

-- `xs.map(f)` among the children
abbrev pub flat_map {ℓ} : {A : Type ℓ} → (A → Html) → List A → Html
flat_map f [] = []
flat_map f (x ∷ xs) = f x ++ flat_map f xs

-- `Array.from({ length: n }).map(...)`
abbrev pub repeat_html : ℕ → Html → Html
repeat_html zero h = []
repeat_html (suc n) h = h ++ repeat_html n h

-- a property of a style object
abbrev pub prop : String → Text → Text × Text
prop name value = (codes name, value)

-- a template literal
abbrev pub tpl : List Text → Text
tpl [] = []
tpl (s ∷ ss) = s ++ tpl ss

-- `s || t`
abbrev pub or_text : Text → Text → Text
or_text [] t = t
or_text (c ∷ s) t = c ∷ s

abbrev pub is_some {ℓ} : {A : Type ℓ} → Option A → Bool
is_some none = false
is_some (some a) = true
