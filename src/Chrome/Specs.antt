-- ===== src/Chrome/Specs.antt =====
-- `CHROME_SPECS` of lib/chromeSpec.ts, and that every entry fits the schema.
use desktopcolors.Common.{
  [], ◌∷◌, Option, none, some, Bool, true, false, codes, ◌≡◌, ◌⊎◌, inl, inr, refl, is_empty, not,
  ◌&&◌,
}
use desktopcolors.Content.{
  DesktopStyle, modern, win9x, win31, platinum, beos, amiga, kde, cde, gem, bleskos, blackbox, c64,
  openlook, plan9, generic,
}
use desktopcolors.Chrome.Defs.{
  computer, folder, trash, drive, disk, grid_icons, rows, panes, bottom, left, right, desk_icon,
  desk_icons, window, beos_window, platinum_window, cde_window, gem_window, open_look_window,
  rio_window, taskbar, menu_bar, top_bar, dock, front_panel, beos_tab, bleskos_shell, root_menu,
  workspace_bar, basic_screen, ChromeSpec, is_chrome_spec,
}

unfoldable pub chrome_specs : DesktopStyle → Option ChromeSpec
chrome_specs modern = none
chrome_specs win9x = some (
    desk_icons left none
      (desk_icon computer (codes "My Computer") ∷ desk_icon folder (codes "Documents") ∷ [])
    ∷ window 28 8 54 (grid_icons (drive ∷ folder ∷ folder ∷ computer ∷ folder ∷ disk ∷ []) 3)
    ∷ desk_icons right (some bottom) (desk_icon trash (codes "Recycle Bin") ∷ [])
    ∷ taskbar
    ∷ [])
chrome_specs win31 = some (window 16 8 68 (panes 2) ∷ [])
chrome_specs platinum = some (
    menu_bar
    ∷ desk_icons right none
        (desk_icon drive (codes "Macintosh HD") ∷ desk_icon trash (codes "Trash") ∷ [])
    ∷ platinum_window 20 12 52 (grid_icons (drive ∷ folder ∷ folder ∷ disk ∷ folder ∷ trash ∷ []) 3)
    ∷ [])
chrome_specs beos = some (
    beos_tab
    ∷ desk_icons left none (desk_icon drive (codes "BeOS") ∷ desk_icon trash (codes "Trash") ∷ [])
    ∷ beos_window 26 11 46
        (grid_icons (folder ∷ folder ∷ drive ∷ folder ∷ disk ∷ folder ∷ folder ∷ trash ∷ []) 4)
    ∷ [])
chrome_specs amiga = some (
    top_bar
    ∷ desk_icons right none (
        desk_icon disk (codes "Workbench")
        ∷ desk_icon drive (codes "Work")
        ∷ desk_icon trash (codes "Trash")
        ∷ [])
    ∷ window 10 12 46 (grid_icons (disk ∷ drive ∷ folder ∷ []) 3)
    ∷ [])
chrome_specs kde = some (window 22 9 52 (rows (72 ∷ 88 ∷ 60 ∷ 80 ∷ [])) ∷ dock ∷ [])
chrome_specs cde = some (
    desk_icons left none (desk_icon folder (codes "Home") ∷ [])
    ∷ cde_window 22 8 46 (grid_icons (folder ∷ folder ∷ drive ∷ folder ∷ disk ∷ folder ∷ []) 3)
    ∷ front_panel
    ∷ [])
chrome_specs gem = some (
    menu_bar
    ∷ desk_icons right none (
        desk_icon disk (codes "Floppy Disk")
        ∷ desk_icon drive (codes "Hard Disk")
        ∷ desk_icon trash (codes "Trash")
        ∷ [])
    ∷ gem_window 12 11 46 (grid_icons (folder ∷ folder ∷ disk ∷ folder ∷ drive ∷ folder ∷ []) 3)
    ∷ [])
chrome_specs bleskos = some (bleskos_shell ∷ [])
chrome_specs blackbox = some (root_menu ∷ workspace_bar ∷ [])
chrome_specs c64 = some (basic_screen ∷ [])
chrome_specs openlook = some (
    desk_icons left (some bottom) (desk_icon trash (codes "Waste") ∷ [])
    ∷ open_look_window 20 3 34 (rows (70 ∷ 42 ∷ []))
    ∷ open_look_window 44 17 44 (grid_icons (folder ∷ folder ∷ folder ∷ folder ∷ []) 4)
    ∷ [])
chrome_specs plan9 = some (
    rio_window 3 3 52 (rows (94 ∷ 82 ∷ 88 ∷ 70 ∷ 90 ∷ 76 ∷ 86 ∷ 62 ∷ 80 ∷ []))
    ∷ rio_window 59 3 36 (rows (84 ∷ 66 ∷ 78 ∷ 58 ∷ 72 ∷ 62 ∷ 76 ∷ []))
    ∷ [])
chrome_specs generic = some (
    desk_icons left none
      (desk_icon computer (codes "Computer") ∷ desk_icon folder (codes "Files") ∷ [])
    ∷ dock
    ∷ [])

-- the specs that are drawn: not empty, and as the schema wants them
unfoldable pub is_drawable : Option ChromeSpec → Bool
unfolding is_chrome_spec
is_drawable none = false
is_drawable (some parts) = not (is_empty parts) && is_chrome_spec parts

-- Every style but the modern one, whose scene is drawn by hand, has a spec with a part, and the spec
-- fits the schema.
pub chrome_specs-is_drawable :
    (style : DesktopStyle)
    → ((style ≡ modern) × (chrome_specs style ≡ none)) ⊎ (is_drawable (chrome_specs style) ≡ true)
unfolding chrome_specs is_drawable
chrome_specs-is_drawable modern = inl (refl, refl)
chrome_specs-is_drawable win9x = inr refl
chrome_specs-is_drawable win31 = inr refl
chrome_specs-is_drawable platinum = inr refl
chrome_specs-is_drawable beos = inr refl
chrome_specs-is_drawable amiga = inr refl
chrome_specs-is_drawable kde = inr refl
chrome_specs-is_drawable cde = inr refl
chrome_specs-is_drawable gem = inr refl
chrome_specs-is_drawable bleskos = inr refl
chrome_specs-is_drawable blackbox = inr refl
chrome_specs-is_drawable c64 = inr refl
chrome_specs-is_drawable openlook = inr refl
chrome_specs-is_drawable plan9 = inr refl
chrome_specs-is_drawable generic = inr refl
