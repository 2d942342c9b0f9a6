-- ===== src/Page/Reached.antt =====
-- What holds of a system's page however it is used.
use desktopcolors.Common.{
  ℕ, ◌<◌, List, [], ◌∷◌, Option, none, some, true, ◌≡◌, ◌⊎◌, inl, inr, refl, arith, Text,
  to_lower_case, length, get_elem?, ◌==◌, Dict, lookup, keys, Distinct, Bool-cases, Option-cases,
}
use desktopcolors.Catalog.{OsView, ColorView, color_path}
use desktopcolors.ColorCatalog.Platforms.{Platform}
use desktopcolors.Detail.Defs.{DetailOf, OsViewJson}
use desktopcolors.Page.Defs.{idx_of_hex, summary, loaded}
use desktopcolors.Page.Machine.{
  PageState, Event, select, step_color, open_full, close_full, open_sheet, close_sheet, copy_value,
  clear_copied, toggle_codes, toggle_similar, preview_similar, close_similar, step_similar,
  download_similar, close_similar_sheet, show_source, arrive, detail_at, similar_in, similar,
  set_sel, start, handle, enabled, Reached, mounted, next,
}
use desktopcolors.Page.Bounds.{idx_of_hex-lt, step_index-lt}
use desktopcolors.Page.Details.{loaded-Distinct, loaded_keeps}
use desktopcolors.Page.Expanded.{IsListed, step_sim-IsListed, toggled-IsListed, IsListed-arrive}

module _ {F : Type 0} where
  detail_at-loaded :
      (colors : List ColorView) (sel : ℕ) (json : OsViewJson F) (prev : Dict (DetailOf F Platform))
      → Distinct (keys prev)
      → (d : DetailOf F Platform) → detail_at colors sel prev ≡ some d
      → detail_at colors sel (loaded colors json prev) ≡ some d
  unfolding detail_at
  detail_at-loaded colors sel json prev once d h = elim (Option-cases (summary colors sel)) [
    | inl e ↦
        absurd (cc (let k : detail_at colors sel prev ≡ none = rw (e, detail_at) refl in k, h))
    | inr (c, e) ↦
        rw (e, detail_at)
          (loaded_keeps colors json prev (to_lower_case c.hex) d once (rw (e, detail_at) at h))
  ]

  module _ (os : OsView) (initial_hex : Option Text) (seed : Dict (DetailOf F Platform))
      (entry : Text) where
    -- What holds of every state: the selection is a color of the system; the address is the one the page
    -- was entered by, with the color that it was entered for, or it names the color that is selected;
    -- what is expanded is among the similar colors; the details given with the page are there; and while a
    -- value shows as copied a timer runs that will end this.
    pub record Sound (sel : ℕ) (url : Text) (sim_exp : Option Text)
        (details : Dict (DetailOf F Platform)) (copied : Option Text) (timers : ℕ) : Type 0 where
      pub inside : sel < length os.colors
      pub address :
          ((url ≡ entry) × (sel ≡ idx_of_hex os.colors initial_hex))
          ⊎ (c : ColorView) × (summary os.colors sel ≡ some c) × (url ≡ color_path os.slug c.hex)
      pub listed : IsListed sim_exp (similar_in (detail_at os.colors sel details))
      pub seeded :
          (k : Text) (d : DetailOf F Platform) → lookup k seed ≡ some d → lookup k details ≡ some d
      pub once : Distinct (keys details)
      pub timed : (copied ≡ none) ⊎ (0 < timers)

    abbrev pub IsSound : PageState F → Type 0
    IsSound st = Sound st.sel st.url st.sim_exp st.details st.copied st.timers

    start-IsSound :
        0 < length os.colors → Distinct (keys seed) → IsSound (start os true initial_hex seed entry)
    unfolding start
    start-IsSound h once = record {
      inside = idx_of_hex-lt os.colors initial_hex h;
      address = inl (refl, refl);
      listed = tt;
      seeded = λ k d e. e;
      once = once;
      timed = inl refl;
    }

    summary-lt :
        (colors : List ColorView) (i : ℕ)
        → i < length colors
        → (c : ColorView) × (summary colors i ≡ some c)
    unfolding summary
    summary-lt [] i h = absurd (omega (arith, h))
    summary-lt (c ∷ cs) i h = elim (Option-cases (get_elem? (c ∷ cs) i)) [
      | inl e ↦ (c, rw (e, summary) refl)
      | inr (d, e) ↦ (d, rw (e, summary) refl)
    ]

    set_sel-IsSound :
        (i : ℕ) (st : PageState F)
        → i < length os.colors
        → IsSound st
        → IsSound (set_sel os true i st)
    unfolding set_sel
    set_sel-IsSound i st lt h = elim (Bool-cases (i == st.sel)) [
      | inl e ↦ rw e h
      | inr e ↦
          let (c, found) = summary-lt os.colors i lt in
          rw e (record {
            inside = lt;
            address = inr (c, found, rw (found) refl);
            listed = tt;
            seeded = h.seeded;
            once = h.once;
            timed = h.timed;
          })
    ]

    arrived-IsListed :
        (json : OsViewJson F) (st : PageState F)
        → IsSound st
        → IsListed st.sim_exp
            (similar_in (detail_at os.colors st.sel (loaded os.colors json st.details)))
    arrived-IsListed json st h =
        IsListed-arrive st.sim_exp (detail_at os.colors st.sel st.details) _
          (detail_at-loaded os.colors st.sel json st.details h.once) h.listed

    handle-IsSound :
        (e : Event F) (st : PageState F)
        → enabled os true e st ≡ true
        → IsSound st
        → IsSound (handle os true e st)
    unfolding handle enabled
    handle-IsSound (select i) st en h = set_sel-IsSound i st (ground arith) h
    handle-IsSound (step_color s) st en h =
        set_sel-IsSound _ st (step_index-lt s st.sel (length os.colors) (omega (arith, h.inside))) h
    handle-IsSound (copy_value key text) st en h = record {
      inside = h.inside;
      address = h.address;
      listed = h.listed;
      seeded = h.seeded;
      once = h.once;
      timed = inr (omega arith);
    }
    handle-IsSound clear_copied st en h = record {
      inside = h.inside;
      address = h.address;
      listed = h.listed;
      seeded = h.seeded;
      once = h.once;
      timed = inl refl;
    }
    handle-IsSound (toggle_similar hex) st en h = record {
      inside = h.inside;
      address = h.address;
      listed = toggled-IsListed hex (similar os true st) st.sim_exp en;
      seeded = h.seeded;
      once = h.once;
      timed = h.timed;
    }
    handle-IsSound (step_similar s) st en h = record {
      inside = h.inside;
      address = h.address;
      listed = step_sim-IsListed s (similar os true st) st.sim_exp h.listed;
      seeded = h.seeded;
      once = h.once;
      timed = h.timed;
    }
    handle-IsSound (arrive json) st en h = record {
      inside = h.inside;
      address = h.address;
      listed = arrived-IsListed json st h;
      seeded = λ k d e. loaded_keeps os.colors json st.details k d h.once (h.seeded k d e);
      once = loaded-Distinct os.colors json st.details h.once;
      timed = h.timed;
    }
    handle-IsSound open_full st en h = h
    handle-IsSound close_full st en h = h
    handle-IsSound open_sheet st en h = h
    handle-IsSound close_sheet st en h = h
    handle-IsSound toggle_codes st en h = h
    handle-IsSound preview_similar st en h = h
    handle-IsSound close_similar st en h = h
    handle-IsSound download_similar st en h = h
    handle-IsSound close_similar_sheet st en h = h
    handle-IsSound (show_source b) st en h = h

    -- Where a system has a color, the details that come with its page have different keys, and the browser
    -- takes a new address, every state that the page comes to is sound: the selection is a color of the
    -- system; the address is the one the page was entered by, with its first selection, or names the
    -- color that is selected; what is expanded is among the similar colors; the details that came with
    -- the page are there unchanged; and while a value shows as copied a timer runs.
    pub Reached-IsSound :
        (st : PageState F)
        → 0 < length os.colors
        → Distinct (keys seed)
        → Reached os true (start os true initial_hex seed entry) st
        → IsSound st
    Reached-IsSound _ h once mounted = start-IsSound h once
    Reached-IsSound _ h once (next {st} e r en) =
        handle-IsSound e st en (Reached-IsSound st h once r)
