-- ===== src/Widgets/Keys.antt =====
-- The keys of islands/FullscreenPreview.tsx, on a system's page and in the color explorer.
use desktopcolors.Common.{
  ◌<◌, Option, none, some, Bool, false, ◌≡◌, refl, ap, ◌∙◌, arith, Text, codes, text_eq,
  if◌then◌else◌, length, ◌==◌, Bool-cases, inl, inr, run,
}
use desktopcolors.Catalog.{OsView}
use desktopcolors.Explorer.Defs.{Step, forward, back, step_index}
use desktopcolors.Explorer.Steps.{step_index_lem}
use desktopcolors.Page.Machine.{PageState, close_full, step_color, handle, set_sel, sel_changed}

pub data Command : Type 0 where
  close next prev : Command

-- `onKey`: what a key calls, and nothing for another key
unfoldable pub on_key : Text → Option Command
on_key key =
    if text_eq key (codes "Escape")
    then some close
    else if text_eq key (codes "ArrowRight")
    then some next
    else if text_eq key (codes "ArrowLeft")
    then some prev
    else none

module _ {F : Type 0} (os : OsView) (allowed : Bool) where
  -- the callbacks that the page gives to its preview
  abbrev called : Option Command → PageState F → PageState F
  called none st = st
  called (some close) st = handle os allowed close_full st
  called (some next) st = handle os allowed (step_color forward) st
  called (some prev) st = handle os allowed (step_color back) st

  unfoldable pub press_key : Text → PageState F → PageState F
  unfolding on_key
  press_key key st = called (on_key key) st

  stepped-sel :
      (s : Step) (st : PageState F)
      → (handle os allowed (step_color s) st).sel ≡ step_index s st.sel (length os.colors)
  unfolding handle set_sel sel_changed
  stepped-sel s st = elim (Bool-cases (step_index s st.sel (length os.colors) == st.sel)) [
    | inl e ↦ rw e (ground arith)
    | inr e ↦ rw e refl
  ]

  arrows :
      (st : PageState F)
      → (press_key (codes "ArrowRight") st ≡ handle os allowed (step_color forward) st)
        × (press_key (codes "ArrowLeft") st ≡ handle os allowed (step_color back) st)
        × (press_key (codes "Escape") st ≡ handle os allowed close_full st)
  unfolding press_key run
  arrows st = (refl, refl, refl)

  -- In the fullscreen preview of a system's page each arrow key undoes the other, also past the first and
  -- the last color, and Escape closes the preview and keeps the color.
  pub press_key_lem :
      (st : PageState F)
      → st.sel < length os.colors
      → ((press_key (codes "ArrowLeft") (press_key (codes "ArrowRight") st)).sel ≡ st.sel)
        × ((press_key (codes "ArrowRight") (press_key (codes "ArrowLeft") st)).sel ≡ st.sel)
        × ((press_key (codes "Escape") st).full ≡ false)
        × ((press_key (codes "Escape") st).sel ≡ st.sel)
  press_key_lem st h =
      let n = length os.colors in
      let (there, back_again, _, _) = step_index_lem st.sel n h in
      let right = handle os allowed (step_color forward) st in
      let left = handle os allowed (step_color back) st in
      (
        ap (λ x. (press_key (codes "ArrowLeft") x).sel) (arrows st).0
            ∙ ap (λ x. x.sel) (arrows right).1
            ∙ stepped-sel back right
            ∙ ap (λ i. step_index back i n) (stepped-sel forward st)
            ∙ there,
        ap (λ x. (press_key (codes "ArrowRight") x).sel) (arrows st).1
            ∙ ap (λ x. x.sel) (arrows left).0
            ∙ stepped-sel forward left
            ∙ ap (λ i. step_index forward i n) (stepped-sel back st)
            ∙ back_again,
        ap (λ x. x.full) (arrows st).2 ∙ (unfold handle in refl),
        ap (λ x. x.sel) (arrows st).2 ∙ (unfold handle in refl),
      )
