-- ===== src/Widgets/Anchors.antt =====
-- The links of a page's markup.
use Prim.Native.String.{String}
use desktopcolors.Common.{List, [], ◌∷◌, ◌++◌, ◌≡◌, refl, ap, ◌∙◌, Text}
use mathlib.Core.List.{append-nil}
use desktopcolors.Preview.Html.{
  Html, el, together, Attr, test_id, href, attr, style, open_tag, close_tag, content,
}

abbrev pub attr_hrefs : List Attr → List Text → List Text
attr_hrefs [] urls = urls
attr_hrefs (href url ∷ attrs) urls = url ∷ attr_hrefs attrs urls
attr_hrefs (test_id id ∷ attrs) urls = attr_hrefs attrs urls
attr_hrefs (attr name value ∷ attrs) urls = attr_hrefs attrs urls
attr_hrefs (style properties ∷ attrs) urls = attr_hrefs attrs urls

-- the addresses of its links, in order
abbrev pub hrefs : Html → List Text
hrefs [] = []
hrefs (open_tag tag attrs ∷ h) = attr_hrefs attrs (hrefs h)
hrefs (close_tag tag ∷ h) = hrefs h
hrefs (content s ∷ h) = hrefs h

attr_hrefs-append :
    (attrs : List Attr) (xs ys : List Text)
    → attr_hrefs attrs (xs ++ ys) ≡ attr_hrefs attrs xs ++ ys
attr_hrefs-append [] xs ys = refl
attr_hrefs-append (href url ∷ attrs) xs ys = ap (λ l. url ∷ l) (attr_hrefs-append attrs xs ys)
attr_hrefs-append (test_id id ∷ attrs) xs ys = attr_hrefs-append attrs xs ys
attr_hrefs-append (attr name value ∷ attrs) xs ys = attr_hrefs-append attrs xs ys
attr_hrefs-append (style properties ∷ attrs) xs ys = attr_hrefs-append attrs xs ys

pub hrefs-append : (g h : Html) → hrefs (g ++ h) ≡ hrefs g ++ hrefs h
hrefs-append [] h = refl
hrefs-append (open_tag tag attrs ∷ g) h =
    ap (attr_hrefs attrs) (hrefs-append g h) ∙ attr_hrefs-append attrs (hrefs g) (hrefs h)
hrefs-append (close_tag tag ∷ g) h = hrefs-append g h
hrefs-append (content s ∷ g) h = hrefs-append g h

abbrev pub hrefs_all : List Html → List Text
hrefs_all [] = []
hrefs_all (h ∷ hs) = hrefs h ++ hrefs_all hs

pub hrefs-together : (hs : List Html) → hrefs (together hs) ≡ hrefs_all hs
hrefs-together [] = refl
hrefs-together (h ∷ hs) = hrefs-append h (together hs) ∙ ap (λ l. hrefs h ++ l) (hrefs-together hs)

-- an element has the links of its attributes and its children
pub hrefs-el :
    (tag : String) (attrs : List Attr) (hs : List Html)
    → hrefs (el tag attrs (together hs)) ≡ attr_hrefs attrs (hrefs_all hs)
hrefs-el tag attrs hs = ap (attr_hrefs attrs) (
    hrefs-append (together hs) (close_tag tag ∷ [])
    ∙ append-nil (hrefs (together hs))
    ∙ hrefs-together hs)

-- what has no link may follow
pub links_before : (h t : Html) → hrefs t ≡ [] → hrefs (h ++ t) ≡ hrefs h
links_before h t e = hrefs-append h t ∙ ap (λ l. hrefs h ++ l) e ∙ append-nil (hrefs h)

-- the last child of an element, and of the last child of an element
pub links_inside : (tag : String) (h : Html) → hrefs ((h ++ []) ++ close_tag tag ∷ []) ≡ hrefs h
links_inside tag h = links_before (h ++ []) (close_tag tag ∷ []) refl ∙ links_before h [] refl

pub links_nested :
    (tag inner : String) (h : Html)
    → hrefs ((((h ++ []) ++ close_tag inner ∷ []) ++ []) ++ close_tag tag ∷ []) ≡ hrefs h
links_nested tag inner h =
    links_inside tag ((h ++ []) ++ close_tag inner ∷ []) ∙ links_inside inner h
