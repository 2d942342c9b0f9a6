-- ===== src/Widgets/Menu.antt =====
-- islands/Dropdown.tsx: a menu that a click outside or Escape closes. The listeners of the document are
-- counted; an effect runs where `open` has changed, after the cleanup of the effect before it.
use desktopcolors.Common.{
  ℕ, ◌+◌, ◌-◌, List, [], ◌∷◌, Bool, true, false, not, ◌&&◌, ◌≡◌, refl, arith, if◌then◌else◌, ltb,
}

pub record Menu : Type 0 where
  pub open_now : Bool
  pub mouse_listeners : ℕ
  pub key_listeners : ℕ
  pub has_cleanup : Bool

abbrev pub closed_menu : Menu
closed_menu = record {
  open_now = false;
  mouse_listeners = 0;
  key_listeners = 0;
  has_cleanup = false;
}

abbrev pub clean_up : Menu → Menu
clean_up m =
    if m.has_cleanup
    then record m {
      mouse_listeners = m.mouse_listeners - 1;
      key_listeners = m.key_listeners - 1;
      has_cleanup = false;
    }
    else m

-- `if (!open) return;`, else the listeners are added
abbrev pub effect : Menu → Menu
effect m =
    if m.open_now
    then record m {
      mouse_listeners = m.mouse_listeners + 1;
      key_listeners = m.key_listeners + 1;
      has_cleanup = true;
    }
    else m

abbrev same_bool : Bool → Bool → Bool
same_bool true b = b
same_bool false b = not b

unfoldable pub set_open : Bool → Menu → Menu
set_open b m = if same_bool b m.open_now then m else effect (record (clean_up m) { open_now = b })

pub data MenuEvent : Type 0 where
  click_trigger close_item : MenuEvent
  mouse_down key_down : Bool → MenuEvent

-- `mouse_down inside` and `key_down is_escape` reach the page only through the listeners
unfoldable pub menu_step : MenuEvent → Menu → Menu
unfolding set_open
menu_step click_trigger m = set_open (not m.open_now) m
menu_step close_item m = set_open false m
menu_step (mouse_down inside) m =
    if ltb 0 m.mouse_listeners && not inside then set_open false m else m
menu_step (key_down is_escape) m =
    if ltb 0 m.key_listeners && is_escape then set_open false m else m

-- the component goes away
unfoldable pub unmount : Menu → Menu
unmount m = clean_up m

unfoldable pub menu_run : List MenuEvent → Menu → Menu
menu_run [] m = m
menu_run (e ∷ es) m = menu_run es (menu_step e m)

abbrev one_if : Bool → ℕ
one_if true = 1
one_if false = 0

pub record IsTidy (m : Menu) : Type 0 where
  pub mouse : m.mouse_listeners ≡ one_if m.open_now
  pub keyboard : m.key_listeners ≡ one_if m.open_now
  pub cleanup : m.has_cleanup ≡ m.open_now

menu_step-IsTidy : (e : MenuEvent) (m : Menu) → IsTidy m → IsTidy (menu_step e m)
unfolding menu_step
menu_step-IsTidy e m h = ground arith

menu_run-IsTidy : (es : List MenuEvent) (m : Menu) → IsTidy m → IsTidy (menu_run es m)
unfolding menu_run
menu_run-IsTidy [] m h = h
menu_run-IsTidy (e ∷ es) m h = menu_run-IsTidy es (menu_step e m) (menu_step-IsTidy e m h)

-- what the document's listeners come to in a tidy menu
tidy_answers :
    (m : Menu)
    → IsTidy m
    → ((menu_step (mouse_down false) m).open_now ≡ false)
      × ((menu_step (key_down true) m).open_now ≡ false)
      × ((unmount m).mouse_listeners ≡ 0)
      × ((unmount m).key_listeners ≡ 0)
unfolding menu_step unmount
tidy_answers m h = ground arith

-- However a menu is used, each listener is on the document once while the menu is open and not at all while
-- it is closed; so a click outside and Escape leave it closed; and when the menu goes away, no listener
-- stays behind.
pub menu_run_lem :
    (es : List MenuEvent)
    → let m = menu_run es closed_menu in
      IsTidy m
      × ((menu_step (mouse_down false) m).open_now ≡ false)
      × ((menu_step (key_down true) m).open_now ≡ false)
      × ((unmount m).mouse_listeners ≡ 0)
      × ((unmount m).key_listeners ≡ 0)
menu_run_lem es =
    let tidy =
      menu_run-IsTidy es closed_menu (record { mouse = refl; keyboard = refl; cleanup = refl }) in
    let (a, b, c, d) = tidy_answers (menu_run es closed_menu) tidy in (tidy, a, b, c, d)
