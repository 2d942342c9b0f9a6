-- ===== src/Widgets/Copied.antt =====
-- `copy` of islands/ColorInfobox.tsx: the label "Copied" of the row that was copied last, and its timers.
use desktopcolors.Common.{
  suc, List, [], ◌∷◌, ◌++◌, Option, none, some, Bool, true, false, ◌≡◌, refl, arith, Text, text_eq,
  text_eq_refl, if◌then◌else◌, Any, inl, inr, Bool-cases,
}
use desktopcolors.Catalog.{OsView}
use desktopcolors.Page.Machine.{PageState, copy_value, clear_copied, handle}

-- the key of the row that shows as copied, and the keys whose timers run, the oldest first
pub record Feedback : Type 0 where
  pub copied : Option Text
  pub pending : List Text

abbrev pub nothing_copied : Feedback
nothing_copied = record { copied = none; pending = [] }

-- `setCopied(key)`, with a timeout for the key
unfoldable pub press : Text → Feedback → Feedback
press key st = record { copied = some key; pending = st.pending ++ key ∷ [] }

-- `c === key ? null : c`
abbrev pub cleared : Text → Option Text → Option Text
cleared key none = none
cleared key (some c) = if text_eq c key then none else some c

abbrev fired : List Text → Feedback → Feedback
fired [] st = st
fired (key ∷ keys) st = record { copied = cleared key st.copied; pending = keys }

-- the oldest timeout
unfoldable pub fire : Feedback → Feedback
fire st = fired st.pending st

pub data Action : Type 0 where
  pressed : Text → Action
  timed_out : Action

abbrev act : Action → Feedback → Feedback
act (pressed key) st = press key st
act timed_out st = fire st

unfoldable pub run_actions : List Action → Feedback → Feedback
run_actions [] st = st
run_actions (a ∷ more) st = run_actions more (act a st)

-- so many timeouts, one after the other
unfoldable pub fire_times : List Text → Feedback → Feedback
fire_times [] st = st
fire_times (k ∷ ks) st = fire_times ks (fire st)

abbrev HasTimer : Option Text → List Text → Type 0
HasTimer none keys = Unit
HasTimer (some c) keys = Any (λ k. text_eq c k ≡ true) keys

Any-last : (c : Text) (keys : List Text) → Any (λ k. text_eq c k ≡ true) (keys ++ c ∷ [])
Any-last c [] = inl (text_eq_refl c)
Any-last c (k ∷ keys) = inr (Any-last c keys)

cleared-HasTimer :
    (key : Text) (keys : List Text) (o : Option Text)
    → HasTimer o (key ∷ keys)
    → HasTimer (cleared key o) keys
cleared-HasTimer key keys none h = tt
cleared-HasTimer key keys (some c) (inl e) = rw e tt
cleared-HasTimer key keys (some c) (inr a) = elim (Bool-cases (text_eq c key)) [
  | inl e ↦ rw e tt
  | inr e ↦ rw e a
]

fired-HasTimer :
    (keys : List Text) (st : Feedback)
    → HasTimer st.copied keys
    → st.pending ≡ keys
    → HasTimer (fired keys st).copied (fired keys st).pending
fired-HasTimer [] st h e = rw e h
fired-HasTimer (k ∷ ks) st h e = cleared-HasTimer k ks st.copied h

act-HasTimer :
    (a : Action) (st : Feedback)
    → HasTimer st.copied st.pending
    → HasTimer (act a st).copied (act a st).pending
unfolding press fire
act-HasTimer (pressed key) st h = Any-last key st.pending
act-HasTimer timed_out st h = fired-HasTimer st.pending st h refl

run_actions-HasTimer :
    (actions : List Action) (st : Feedback)
    → HasTimer st.copied st.pending
    → HasTimer (run_actions actions st).copied (run_actions actions st).pending
unfolding run_actions
run_actions-HasTimer [] st h = h
run_actions-HasTimer (a ∷ more) st h = run_actions-HasTimer more (act a st) (act-HasTimer a st h)

fire_times-copied :
    (keys : List Text) (o : Option Text)
    → HasTimer o keys
    → (fire_times keys (record { copied = o; pending = keys })).copied ≡ none
unfolding fire_times fire
fire_times-copied [] none h = refl
fire_times-copied [] (some c) h = absurd h
fire_times-copied (k ∷ ks) o h = fire_times-copied ks (cleared k o) (cleared-HasTimer k ks o h)

-- Whatever is copied and whichever timers fire in between, once the timers that are left have fired no row
-- shows as copied any more.
pub fire_times-run_actions :
    (actions : List Action)
    → let st = run_actions actions nothing_copied in (fire_times st.pending st).copied ≡ none
fire_times-run_actions actions =
    let st = run_actions actions nothing_copied in
    fire_times-copied st.pending st.copied (run_actions-HasTimer actions nothing_copied tt)

-- Where one value is copied and then another before the first timer fires, that timer ends the second
-- label on a system's page, though the second timer still runs; in the box of a color the second label
-- stays.
pub clear_copied_early :
    {F : Type 0} (os : OsView) (allowed : Bool) (st : PageState F) (a b : Text) (s t : Text)
    → text_eq b a ≡ false
    → let page =
        handle os allowed clear_copied
          (handle os allowed (copy_value b t) (handle os allowed (copy_value a s) st)) in
      (page.copied ≡ none)
      × (page.timers ≡ suc st.timers)
      × ((fire (press b (press a nothing_copied))).copied ≡ some b)
unfolding handle fire press
clear_copied_early os allowed st a b s t h = (refl, omega arith, rw h refl)
