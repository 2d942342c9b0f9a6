-- ===== src/Widgets/Tests.antt =====
-- Runs of the smaller parts of the pages, and the theorems on them at concrete values.
use desktopcolors.Common.{
  ℕ, ◌*◌, ◌≤◌, suc, [], ◌∷◌, none, some, true, false, ◌≡◌, refl, arith, codes, run, All,
  if◌then◌else◌, ltb, leb,
}
use desktopcolors.Detail.Samples.{os, use_of}
use desktopcolors.ColorCatalog.Platforms.{Platform}
use desktopcolors.Page.Defs.{idx_of_hex, default_idx, find_index}
use desktopcolors.Page.Machine.{PageState, start, copy_value, clear_copied, handle}
use desktopcolors.Widgets.Copied.{
  nothing_copied, press, fire, pressed, timed_out, run_actions, fire_times, fire_times-run_actions,
  clear_copied_early,
}
use desktopcolors.Widgets.Menu.{
  closed_menu, click_trigger, mouse_down, key_down, menu_step, menu_run, unmount, IsTidy,
  menu_run_lem,
}
use desktopcolors.Widgets.Download.{
  count_effects, is_create_url, is_revoke_url, is_append, is_remove, is_click, is_tracked, succeeds,
  download_wallpaper, download_wallpaper_lem, IsSize, offered, offered-IsSize,
}
use desktopcolors.Widgets.Timeline.{left_of, span, max_y, left_of_bounds}
use desktopcolors.Widgets.Keys.{press_key, press_key_lem}

fire_times-run_actions_example :
    let st =
      run_actions (pressed (codes "hex") ∷ timed_out ∷ pressed (codes "rgb") ∷ []) nothing_copied in
    (fire_times st.pending st).copied ≡ none
fire_times-run_actions_example =
    fire_times-run_actions (pressed (codes "hex") ∷ timed_out ∷ pressed (codes "rgb") ∷ [])

abbrev page : PageState ℕ
page = start os true none [] (codes "/os/win95")

clear_copied_early_example :
    let later = handle os true clear_copied (
      handle os true
        (copy_value (codes "rgb") (codes "0, 128, 128"))
        (handle os true (copy_value (codes "hex") (codes "#008080")) page)) in
    (later.copied ≡ none)
    × (later.timers ≡ suc page.timers)
    × ((fire (press (codes "rgb") (press (codes "hex") nothing_copied))).copied
        ≡ some (codes "rgb"))
clear_copied_early_example =
    clear_copied_early os true page (codes "hex") (codes "rgb") (codes "#008080")
      (codes "0, 128, 128") (unfold run in refl)

menu_run_lem_example :
    let m = menu_run (click_trigger ∷ mouse_down true ∷ []) closed_menu in
    IsTidy m
    × ((menu_step (mouse_down false) m).open_now ≡ false)
    × ((menu_step (key_down true) m).open_now ≡ false)
    × ((unmount m).mouse_listeners ≡ 0)
    × ((unmount m).key_listeners ≡ 0)
menu_run_lem_example = menu_run_lem (click_trigger ∷ mouse_down true ∷ [])

download_wallpaper_lem_example :
    let run =
      download_wallpaper
        (record { has_context = true; makes_blob = true })
        (codes "win95")
        (codes "Teal")
        (codes "#008080")
        800
        600 in
    (count_effects is_create_url run.0 ≡ count_effects is_revoke_url run.0)
    × (count_effects is_append run.0 ≡ count_effects is_remove run.0)
    × (count_effects is_click run.0 ≡ succeeds run.1)
    × (count_effects is_tracked run.0 ≡ succeeds run.1)
    × (succeeds run.1 ≡ 1)
download_wallpaper_lem_example =
    download_wallpaper_lem (record { has_context = true; makes_blob = true }) (codes "win95")
      (codes "Teal") (codes "#008080") 800 600

offered-IsSize_example : All IsSize (offered (record { cw = codes "1024"; ch = codes "0" }))
offered-IsSize_example = offered-IsSize (record { cw = codes "1024"; ch = codes "0" })

abbrev first_use : Platform
first_use = use_of (codes "win95") true

abbrev later_use : Platform
later_use = record (use_of (codes "win98") true) { year = 1998 }

left_of_bounds_example :
    All
      (λ u. left_of first_use (later_use ∷ []) u ≤ 100 * span first_use (later_use ∷ []))
      (first_use ∷ later_use ∷ [])
    × (left_of first_use (later_use ∷ []) first_use ≡ 0)
    × (left_of first_use (later_use ∷ []) later_use ≡ (
        if ltb 1995 (max_y first_use (later_use ∷ []))
        then 100 * span first_use (later_use ∷ [])
        else 0))
    × ((u v : Platform)
        → leb u.year v.year ≡ true
        → leb (left_of first_use (later_use ∷ []) u) (left_of first_use (later_use ∷ []) v) ≡ true)
left_of_bounds_example = left_of_bounds first_use (later_use ∷ []) ((refl, tt), (tt, tt))

press_key_lem_example :
    ((press_key os true (codes "ArrowLeft") (press_key os true (codes "ArrowRight") page)).sel
      ≡ page.sel)
    × ((press_key os true (codes "ArrowRight") (press_key os true (codes "ArrowLeft") page)).sel
        ≡ page.sel)
    × ((press_key os true (codes "Escape") page).full ≡ false)
    × ((press_key os true (codes "Escape") page).sel ≡ page.sel)
press_key_lem_example =
    press_key_lem os true page (unfold start idx_of_hex default_idx find_index run in omega arith)
