-- ===== src/Page/Machine.antt =====
-- The state of islands/OsDetail.tsx, its handlers, and the effects that run when the selection changes.
-- A page is mounted with `start`; an event is handled where the element that raises it is shown.
use desktopcolors.Common.{
  ℕ, suc, ◌-◌, List, [], ◌∷◌, Option, none, some, Bool, true, false, not, ◌&&◌, ◌≡◌, Text, text_eq,
  to_lower_case, if◌then◌else◌, length, any, find?, ◌==◌, ltb, Dict, lookup,
}
use desktopcolors.Catalog.{OsView, ColorView, color_path}
use desktopcolors.ColorCatalog.Platforms.{Platform}
use desktopcolors.Detail.Defs.{DetailOf, SimilarOf, OsViewJson}
use desktopcolors.Explorer.Defs.{Step, step_index}
use desktopcolors.Track.Defs.{TrackEvent, copy, osview}
use desktopcolors.Page.Defs.{idx_of_hex, summary, has_source, loaded, step_sim}

-- `url` is the path in the address bar, `sent` what was tracked, `written` what went to the clipboard, the
-- last of each first; `timers` counts the timeouts of `copy` that have not fired.
pub record PageState (F : Type 0) : Type 0 where
  pub sel : ℕ
  pub sheet : Bool
  pub full : Bool
  pub copied : Option Text
  pub codes_expanded : Bool
  pub sim_exp : Option Text
  pub sim_full : Bool
  pub sim_sheet : Option (SimilarOf F Platform)
  pub details : Dict (DetailOf F Platform)
  pub src_view : Bool
  pub url : Text
  pub sent : List TrackEvent
  pub written : List Text
  pub timers : ℕ

pub data Event (F : Type 0) : Type 0 where
  select : ℕ → Event F
  step_color : Step → Event F
  open_full close_full open_sheet close_sheet : Event F
  copy_value : Text → Text → Event F
  clear_copied toggle_codes : Event F
  toggle_similar : Text → Event F
  preview_similar close_similar : Event F
  step_similar : Step → Event F
  download_similar close_similar_sheet : Event F
  show_source : Bool → Event F
  arrive : OsViewJson F → Event F

abbrev pub is_some {ℓ} : {A : Type ℓ} → Option A → Bool
is_some none = false
is_some (some a) = true

-- `x === s.hex ? null : s.hex`
abbrev pub toggled : Text → Option Text → Option Text
toggled hex none = some hex
toggled hex (some x) = if text_eq x hex then none else some hex

-- `replaceState` with the path of the color; where the browser refuses it, the error is ignored
abbrev pub path_of : Text → Bool → Text → Option ColorView → Text
path_of slug allowed url none = url
path_of slug allowed url (some c) = if allowed then color_path slug c.hex else url

abbrev pub copy_event : Text → Option ColorView → List TrackEvent → List TrackEvent
copy_event slug none sent = sent
copy_event slug (some c) sent = copy c.hex slug ∷ sent

module _ {F : Type 0} where
  -- `details[summary.hex.toLowerCase()]`
  unfoldable pub detail_at :
      List ColorView → ℕ → Dict (DetailOf F Platform) → Option (DetailOf F Platform)
  detail_at colors sel details = elim (summary colors sel) [
    | none ↦ none
    | some c ↦ lookup (to_lower_case c.hex) details
  ]

  -- `detail?.similar ?? []`
  abbrev pub similar_in : Option (DetailOf F Platform) → List (SimilarOf F Platform)
  similar_in none = []
  similar_in (some d) = d.similar

  -- `sim.find((x) => x.hex === simExp)`
  abbrev pub found_in : Option Text → List (SimilarOf F Platform) → Option (SimilarOf F Platform)
  found_in none similar = none
  found_in (some hex) similar = find? (λ x. text_eq x.hex hex) similar

  -- `allowed` tells whether the browser takes the path that `replaceState` sets; an error is ignored.
  module _ (os : OsView) (allowed : Bool) where
    unfoldable pub similar : PageState F → List (SimilarOf F Platform)
    unfolding detail_at
    similar st = similar_in (detail_at os.colors st.sel st.details)

    unfoldable pub expanded : PageState F → Option (SimilarOf F Platform)
    unfolding similar
    expanded st = found_in st.sim_exp (similar st)

    -- the two effects on `[sel]` after the page is mounted
    unfoldable pub sel_changed : PageState F → PageState F
    sel_changed st = record st {
      sim_exp = none;
      url = path_of os.slug allowed st.url (summary os.colors st.sel);
    }

    -- an effect runs only where the selection is another one
    unfoldable pub set_sel : ℕ → PageState F → PageState F
    unfolding sel_changed
    set_sel i st = if i == st.sel then st else sel_changed (record st { sel = i })

    -- the first render and its effects: none is expanded yet, and the address stays
    unfoldable pub start : Option Text → Dict (DetailOf F Platform) → Text → PageState F
    start initial_hex details_by_hex url = record {
      sel = idx_of_hex os.colors initial_hex;
      sheet = false;
      full = false;
      copied = none;
      codes_expanded = false;
      sim_exp = none;
      sim_full = false;
      sim_sheet = none;
      details = details_by_hex;
      src_view = false;
      url = url;
      sent = osview os.slug ∷ [];
      written = [];
      timers = 0;
    }

    unfoldable pub copy_text : Text → Text → PageState F → PageState F
    copy_text key text st = record st {
      written = text ∷ st.written;
      sent = copy_event os.slug (summary os.colors st.sel) st.sent;
      copied = some key;
      timers = suc st.timers;
    }

    unfoldable pub handle : Event F → PageState F → PageState F
    unfolding set_sel copy_text expanded
    handle (select i) st = set_sel i st
    handle (step_color s) st = set_sel (step_index s st.sel (length os.colors)) st
    handle open_full st = record st { full = true }
    handle close_full st = record st { full = false }
    handle open_sheet st = record st { sheet = true }
    handle close_sheet st = record st { sheet = false }
    handle (copy_value key text) st = copy_text key text st
    handle clear_copied st = record st { copied = none; timers = st.timers - 1 }
    handle toggle_codes st = record st { codes_expanded = not st.codes_expanded }
    handle (toggle_similar hex) st = record st { sim_exp = toggled hex st.sim_exp }
    handle preview_similar st = record st { sim_full = true }
    handle close_similar st = record st { sim_full = false }
    handle (step_similar s) st = record st { sim_exp = step_sim s (similar st) st.sim_exp }
    handle download_similar st = record st { sim_sheet = expanded st }
    handle close_similar_sheet st = record st { sim_sheet = none }
    handle (show_source b) st = record st { src_view = b }
    handle (arrive json) st = record st { details = loaded os.colors json st.details }

    -- where the element is shown that raises the event, the timer runs, or the answer is due
    unfoldable pub enabled : Event F → PageState F → Bool
    unfolding expanded
    enabled (select i) st = ltb i (length os.colors)
    enabled (step_color s) st = st.full
    enabled close_full st = st.full
    enabled close_sheet st = st.sheet
    enabled clear_copied st = ltb 0 st.timers
    enabled toggle_codes st = is_some (detail_at os.colors st.sel st.details)
    enabled (toggle_similar hex) st = any (λ x. text_eq x.hex hex) (similar st)
    enabled preview_similar st = is_some (expanded st)
    enabled close_similar st = st.sim_full && is_some (expanded st)
    enabled (step_similar s) st = st.sim_full && is_some (expanded st)
    enabled download_similar st = is_some (expanded st)
    enabled close_similar_sheet st = is_some st.sim_sheet
    enabled (show_source b) st = has_source os
    enabled _ st = true

    -- a page in use
    pub data Reached (first : PageState F) : PageState F → Type 0 where
      mounted : Reached first first
      next :
          {st : PageState F} (e : Event F)
          → Reached first st
          → enabled e st ≡ true
          → Reached first (handle e st)
