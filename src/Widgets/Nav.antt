-- ===== src/Widgets/Nav.antt =====
-- islands/MobileNav.tsx: the menu of the site on narrow screens.
use desktopcolors.Common.{
  List, [], ◌∷◌, map, Option, none, some, Bool, true, false, not, ◌≡◌, refl, Text, codes, text_eq,
  if◌then◌else◌,
}
use desktopcolors.Preview.Html.{Html, el, txt, together, flat_map, href, attr, tpl, span_of, div_of}
use desktopcolors.Widgets.Anchors.{hrefs}

pub record NavLink : Type 0 where
  pub key : Text
  pub label : Text
  pub path : Text

-- `LINKS`
unfoldable pub nav_links : List NavLink
nav_links =
    record { key = codes "platforms"; label = codes "Platforms"; path = codes "/" }
    ∷ record { key = codes "colors"; label = codes "Colors"; path = codes "/colors" }
    ∷ record { key = codes "setup"; label = codes "Setup Guide"; path = codes "/setup" }
    ∷ record { key = codes "about"; label = codes "About"; path = codes "/about" }
    ∷ []

-- the button, and a link of the list
unfoldable pub toggle_nav : Bool → Bool
toggle_nav opened = not opened

unfoldable pub follow_nav : Bool → Bool
follow_nav opened = false

abbrev is_active : Option Text → Text → Bool
is_active none key = false
is_active (some k) key = text_eq key k

unfoldable pub nav_link : Option Text → NavLink → Html
nav_link active l =
    el "a"
      (href l.path
        ∷ attr "style" (
            tpl (
              codes
                "display: block; padding: 11px 13px; border-radius: 8px; font: 500 14px var(--font-ui); color: "
              ∷ (if is_active active l.key then codes "var(--ink)" else codes "var(--muted)")
              ∷ codes ";"
              ∷ []))
        ∷ [])
      (txt l.label)

abbrev pub nav_list : Option Text → Bool → Html
nav_list active false = []
nav_list active true =
    div_of
      (codes
        "position: absolute; top: calc(100% + 8px); right: 0; z-index: 20; min-width: 180px; background: #fff; border: 1px solid var(--field-border); border-radius: 12px; box-shadow: 0 14px 34px rgba(0,0,0,0.16); padding: 6px; display: flex; flex-direction: column;")
      (flat_map (nav_link active) nav_links ∷ [])

unfoldable pub mobile_nav : Option Text → Bool → Html
unfolding nav_link nav_links
mobile_nav active opened = div_of (codes "position: relative;") (
    el "button"
      (attr "aria-label" (codes "Menu")
        ∷ attr "style" (
            codes
              "cursor: pointer; display: inline-flex; align-items: center; gap: 8px; background: #fff; border: 1px solid var(--field-border); border-radius: 10px; padding: 9px 13px; font: 500 14px var(--font-ui); color: var(--ink);")
        ∷ [])
      (together (
        span_of (codes "font-size: 15px; line-height: 1;")
          (txt (if opened then codes "✕" else codes "☰") ∷ [])
        ∷ txt (codes " Menu")
        ∷ []))
    ∷ nav_list active opened
    ∷ [])

-- The menu links to the four pages of the site where it is open, to nothing where it is closed, and following
-- a link closes it.
pub mobile_nav_lem :
    (active : Option Text) (opened : Bool)
    → (hrefs (mobile_nav active opened) ≡ (if opened then map (λ l. l.path) nav_links else []))
      × (hrefs (mobile_nav active (follow_nav (toggle_nav opened))) ≡ [])
unfolding mobile_nav follow_nav
mobile_nav_lem active true = (refl, refl)
mobile_nav_lem active false = (refl, refl)
