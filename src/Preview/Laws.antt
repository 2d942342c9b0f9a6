-- ===== src/Preview/Laws.antt =====
-- What `DesktopPreview` of islands/DesktopPreview.tsx draws for a style, and where the accent shows.
use desktopcolors.Common.{
  List, [], ◌∷◌, Option, none, some, Bool, true, false, not, ◌&&◌, Bool-cases, if◌then◌else◌,
  is_empty, Text, codes, text_eq, ◌≡◌, inl, inr, refl, map, ap, run,
}
use desktopcolors.Content.{
  DesktopStyle, modern, win9x, win31, platinum, beos, amiga, kde, cde, gem, bleskos, blackbox, c64,
  openlook, plan9, generic,
}
use desktopcolors.Color.Floats.{Floats}
use desktopcolors.Color.Spaces.{contrast}
use desktopcolors.Chrome.Defs.{
  desk_icons, window, beos_window, platinum_window, cde_window, gem_window, open_look_window,
  rio_window, taskbar, menu_bar, top_bar, dock, front_panel, beos_tab, bleskos_shell, root_menu,
  workspace_bar, basic_screen, ChromePart, ChromeSpec,
}
use desktopcolors.Chrome.Specs.{chrome_specs}
use desktopcolors.Preview.Html.{
  Html, Attr, test_id, href, attr, style, open_tag, close_tag, content,
}
use desktopcolors.Preview.Surfaces.{chrome_surfaces}
use desktopcolors.Preview.Scene.{preview_box, scene, preview_ink, desktop_preview}

abbrev attr_ids : List Attr → List Text → List Text
attr_ids [] ids = ids
attr_ids (test_id id ∷ attrs) ids = id ∷ attr_ids attrs ids
attr_ids (href url ∷ attrs) ids = attr_ids attrs ids
attr_ids (attr name value ∷ attrs) ids = attr_ids attrs ids
attr_ids (style properties ∷ attrs) ids = attr_ids attrs ids

-- the test ids of a page, in order
abbrev pub test_ids : Html → List Text
test_ids [] = []
test_ids (open_tag tag attrs ∷ h) = attr_ids attrs (test_ids h)
test_ids (close_tag tag ∷ h) = test_ids h
test_ids (content s ∷ h) = test_ids h

-- what each part is known by
abbrev pub part_id : ChromePart → Text
part_id (desk_icons side anchor icons) = codes "chrome-deskicons"
part_id (window l t w body) = codes "chrome-window"
part_id (beos_window l t w body) = codes "chrome-beoswindow"
part_id (platinum_window l t w body) = codes "chrome-platinumwindow"
part_id (cde_window l t w body) = codes "chrome-cdewindow"
part_id (gem_window l t w body) = codes "chrome-gemwindow"
part_id (open_look_window l t w body) = codes "chrome-openlookwindow"
part_id (rio_window l t w body) = codes "chrome-riowindow"
part_id taskbar = codes "chrome-taskbar"
part_id menu_bar = codes "chrome-menubar"
part_id top_bar = codes "chrome-topbar"
part_id dock = codes "chrome-dock"
part_id front_panel = codes "chrome-frontpanel"
part_id beos_tab = codes "chrome-beostab"
part_id bleskos_shell = codes "chrome-bleskos"
part_id root_menu = codes "chrome-rootmenu"
part_id workspace_bar = codes "chrome-workspacebar"
part_id basic_screen = codes "chrome-basicscreen"

abbrev pub scene_ids : Option ChromeSpec → List Text
scene_ids none = codes "chrome-desk-icons" ∷ codes "chrome-windows" ∷ codes "chrome-dock" ∷ []
scene_ids (some spec) = map part_id spec

-- the colors that texts and blocks of a page are written in
abbrev style_colors : List (Text × Text) → List Text → List Text
style_colors [] colors = colors
style_colors ((key, value) ∷ ps) colors =
    if text_eq key (codes "color") then value ∷ style_colors ps colors else style_colors ps colors

abbrev attr_colors : List Attr → List Text → List Text
attr_colors [] colors = colors
attr_colors (style properties ∷ attrs) colors = style_colors properties (attr_colors attrs colors)
attr_colors (test_id id ∷ attrs) colors = attr_colors attrs colors
attr_colors (href url ∷ attrs) colors = attr_colors attrs colors
attr_colors (attr name value ∷ attrs) colors = attr_colors attrs colors

abbrev pub text_colors : Html → List Text
text_colors [] = []
text_colors (open_tag tag attrs ∷ h) = attr_colors attrs (text_colors h)
text_colors (close_tag tag ∷ h) = text_colors h
text_colors (content s ∷ h) = text_colors h

abbrev pub five : Text → List Text
five ink = ink ∷ ink ∷ ink ∷ ink ∷ ink ∷ []

abbrev pub is_c64 : DesktopStyle → Bool
is_c64 c64 = true
is_c64 _ = false

is_c64-eq : (desktop : DesktopStyle) → is_c64 desktop ≡ true → desktop ≡ c64
is_c64-eq c64 e = refl
is_c64-eq modern e = cc e
is_c64-eq win9x e = cc e
is_c64-eq win31 e = cc e
is_c64-eq platinum e = cc e
is_c64-eq beos e = cc e
is_c64-eq amiga e = cc e
is_c64-eq kde e = cc e
is_c64-eq cde e = cc e
is_c64-eq gem e = cc e
is_c64-eq bleskos e = cc e
is_c64-eq blackbox e = cc e
is_c64-eq openlook e = cc e
is_c64-eq plan9 e = cc e
is_c64-eq generic e = cc e

module _ (fl : Floats) where
  -- The preview of a style draws the parts of its spec, each once and in the order of the spec, and
  -- nothing else that has a test id; without a spec it draws the three parts of the modern scene.
  pub desktop_preview-test_ids :
      (hex on_color : Text) (desktop : DesktopStyle) (accent : Option Text)
      → test_ids (desktop_preview fl hex on_color desktop accent) ≡ scene_ids (chrome_specs desktop)
  unfolding desktop_preview chrome_specs
  desktop_preview-test_ids hex on_color modern accent = refl
  desktop_preview-test_ids hex on_color win9x accent = refl
  desktop_preview-test_ids hex on_color win31 accent = refl
  desktop_preview-test_ids hex on_color platinum accent = refl
  desktop_preview-test_ids hex on_color beos accent = refl
  desktop_preview-test_ids hex on_color amiga accent = refl
  desktop_preview-test_ids hex on_color kde accent = refl
  desktop_preview-test_ids hex on_color cde accent = refl
  desktop_preview-test_ids hex on_color gem accent = refl
  desktop_preview-test_ids hex on_color bleskos accent = refl
  desktop_preview-test_ids hex on_color blackbox accent = refl
  desktop_preview-test_ids hex on_color c64 accent = refl
  desktop_preview-test_ids hex on_color openlook accent = refl
  desktop_preview-test_ids hex on_color plan9 accent = refl
  desktop_preview-test_ids hex on_color generic accent = refl

  scene_accent_lem :
      (desktop : DesktopStyle) (on_color : Text) (ink : Option Text)
      → is_c64 desktop ≡ false
      → scene (chrome_specs desktop) on_color ink ≡ scene (chrome_specs desktop) on_color none
  unfolding scene chrome_specs
  scene_accent_lem modern on_color ink h = refl
  scene_accent_lem win9x on_color ink h = refl
  scene_accent_lem win31 on_color ink h = refl
  scene_accent_lem platinum on_color ink h = refl
  scene_accent_lem beos on_color ink h = refl
  scene_accent_lem amiga on_color ink h = refl
  scene_accent_lem kde on_color ink h = refl
  scene_accent_lem cde on_color ink h = refl
  scene_accent_lem gem on_color ink h = refl
  scene_accent_lem bleskos on_color ink h = refl
  scene_accent_lem blackbox on_color ink h = refl
  scene_accent_lem c64 on_color ink h = cc h
  scene_accent_lem openlook on_color ink h = refl
  scene_accent_lem plan9 on_color ink h = refl
  scene_accent_lem generic on_color ink h = refl

  -- what the source says of an accent that can be seen: a contrast of at least 1.6 with the color
  abbrev pub stands_out : Text → Text → Bool
  stands_out hex accent = not (is_empty accent) && fl.le (fl.dec 16 1) (contrast fl accent hex)

  preview_ink_lem :
      (hex accent : Text)
      → preview_ink fl hex (some accent) ≡ (if stands_out hex accent then some accent else none)
  unfolding preview_ink
  preview_ink_lem hex [] = refl
  preview_ink_lem hex (c ∷ cs) = refl

  -- The accent shows only on the Commodore 64, and there only where its contrast with the color is at
  -- least 1.6: all other previews are drawn as without an accent. Each of the five lines of the
  -- Commodore's screen is written in the accent where that shows, and in the usual ink elsewhere.
  pub desktop_preview-accent :
      (hex on_color accent : Text) (desktop : DesktopStyle)
      → (desktop_preview fl hex on_color desktop (some accent) ≡ (
          if is_c64 desktop && stands_out hex accent
          then desktop_preview fl hex on_color c64 (some accent)
          else desktop_preview fl hex on_color desktop none))
        × (text_colors (desktop_preview fl hex on_color c64 (some accent))
            ≡ five (if stands_out hex accent then accent else on_color))
  unfolding desktop_preview
  desktop_preview-accent hex on_color accent desktop = (only_there desktop, ink_of)
    where
      ink_of :
          text_colors (desktop_preview fl hex on_color c64 (some accent))
          ≡ five (if stands_out hex accent then accent else on_color)
      ink_of = elim (Bool-cases (stands_out hex accent)) [
        | inl e ↦ rw (preview_ink_lem, e) (unfold scene chrome_specs chrome_surfaces run in refl)
        | inr e ↦ rw (preview_ink_lem, e) (unfold scene chrome_specs chrome_surfaces run in refl)
      ]

      hidden :
          (desktop : DesktopStyle)
          → stands_out hex accent ≡ false
          → desktop_preview fl hex on_color desktop (some accent)
            ≡ desktop_preview fl hex on_color desktop none
      hidden desktop e = rw (preview_ink_lem, e) refl

      elsewhere :
          (desktop : DesktopStyle)
          → is_c64 desktop ≡ false
          → desktop_preview fl hex on_color desktop (some accent)
            ≡ desktop_preview fl hex on_color desktop none
      elsewhere desktop e =
          ap (preview_box hex)
            (scene_accent_lem desktop on_color (preview_ink fl hex (some accent)) e)

      only_there :
          (desktop : DesktopStyle)
          → desktop_preview fl hex on_color desktop (some accent) ≡ (
              if is_c64 desktop && stands_out hex accent
              then desktop_preview fl hex on_color c64 (some accent)
              else desktop_preview fl hex on_color desktop none)
      only_there desktop = elim (Bool-cases (is_c64 desktop)) [
        | inr e ↦ rw e (elsewhere desktop e)
        | inl e ↦ elim (Bool-cases (stands_out hex accent)) [
          | inl f ↦
              rw (e, f)
                (ap (λ d. desktop_preview fl hex on_color d (some accent)) (is_c64-eq desktop e))
          | inr f ↦ rw (e, f) (hidden desktop f)
        ]
      ]
