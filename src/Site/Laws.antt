-- ===== src/Site/Laws.antt =====
-- The loaders of lib/osDetail.ts answer as if nothing were kept.
use desktopcolors.Common.{
  List, [], ◌∷◌, map, Option, none, some, Bool, ◌≡◌, refl, sym, ap, Text, All, Dict, lookup,
  All-put, lookup-All, Option-cases, inl, inr,
}
use desktopcolors.Color.Floats.{Floats}
use desktopcolors.Color.Spaces.{RalColor}
use desktopcolors.Scores.{Scores}
use desktopcolors.Catalog.{Outcome, throws, returns, ◌>>=◌, Catalog, build_catalog}
use desktopcolors.Derive.Defs.{OsEntry}
use desktopcolors.Detail.Defs.{OsDetailView, os_view_json_from_view}
use desktopcolors.Detail.Build.{build_os_detail}
use desktopcolors.Site.Defs.{
  CollectionEntry, Site, fresh, collected, load_entries, load_catalog, cached, load_os_detail,
  started_page, load_os_bootstrap, load_os_view_json, Request, view_json, bootstrap, Response,
  json_of, bootstrap_of, respond, respond_all,
}

module _ (fl : Floats) (collection : Outcome (List CollectionEntry)) (scores : Scores) where
  open fl use {F}

  -- what each loader comes to where nothing is kept
  abbrev catalog_now : Outcome Catalog
  catalog_now = collected collection >>= λ es. build_catalog fl es scores

  -- the promises that are kept are those outcomes
  abbrev IsKept {ℓ} : {A : Type ℓ} → Outcome A → Option (Outcome A) → Type ℓ
  IsKept now none = Unit
  IsKept now (some kept) = kept ≡ now

  module _ (ral_classic ral_design_plus : List RalColor) (name_before : Text → Text → Bool) where
    abbrev page_with : Text → Outcome Catalog → Outcome (List OsEntry) → Outcome (OsDetailView F)
    page_with slug made es = made >>= λ catalog. es >>= λ entries.
        build_os_detail fl ral_classic ral_design_plus name_before entries catalog slug

    abbrev page_now : Text → Outcome (OsDetailView F)
    page_now slug = page_with slug catalog_now (collected collection)

    record IsSound (st : Site fl) : Type 0 where
      entries_kept : IsKept (collected collection) st.entries_promise
      catalog_kept : IsKept catalog_now st.catalog_promise
      details_kept : All (λ (slug, view). page_now slug ≡ returns view) st.detail_cache

    abbrev site :
        Option (Outcome (List OsEntry)) → Option (Outcome Catalog) → Dict (OsDetailView F) → Site fl
    site entries catalog details = record {
      entries_promise = entries;
      catalog_promise = catalog;
      detail_cache = details;
    }

    load_entries_of :
        (entries : Option (Outcome (List OsEntry))) (catalog : Option (Outcome Catalog))
        (details : Dict (OsDetailView F))
        → IsSound (site entries catalog details)
        → ((load_entries fl collection scores (site entries catalog details)).0
            ≡ collected collection)
          × IsSound (load_entries fl collection scores (site entries catalog details)).1
    unfolding load_entries
    load_entries_of none catalog details h = (
      refl,
      record { entries_kept = refl; catalog_kept = h.catalog_kept; details_kept = h.details_kept },
    )
    load_entries_of (some kept) catalog details h = (h.entries_kept, h)

    load_entries_lem :
        (st : Site fl)
        → IsSound st
        → ((load_entries fl collection scores st).0 ≡ collected collection)
          × IsSound (load_entries fl collection scores st).1
    load_entries_lem st h = load_entries_of st.entries_promise st.catalog_promise st.detail_cache h

    load_catalog_of :
        (entries : Option (Outcome (List OsEntry))) (catalog : Option (Outcome Catalog))
        (details : Dict (OsDetailView F))
        → IsSound (site entries catalog details)
        → ((load_catalog fl collection scores (site entries catalog details)).0 ≡ catalog_now)
          × IsSound (load_catalog fl collection scores (site entries catalog details)).1
    unfolding load_catalog
    load_catalog_of entries none details h =
        let (same, sound) = load_entries_lem (site entries none details) h in
        let made = ap (λ o. o >>= λ es. build_catalog fl es scores) same in
        (
          made,
          record {
            entries_kept = sound.entries_kept;
            catalog_kept = made;
            details_kept = sound.details_kept;
          },
        )
    load_catalog_of entries (some kept) details h = (h.catalog_kept, h)

    load_catalog_lem :
        (st : Site fl)
        → IsSound st
        → ((load_catalog fl collection scores st).0 ≡ catalog_now)
          × IsSound (load_catalog fl collection scores st).1
    load_catalog_lem st h = load_catalog_of st.entries_promise st.catalog_promise st.detail_cache h

    cached_lem :
        (slug : Text) (made : Outcome (OsDetailView F)) (st : Site fl)
        → page_now slug ≡ made
        → IsSound st
        → ((cached fl slug made st).0 ≡ page_now slug) × IsSound (cached fl slug made st).1
    cached_lem slug (throws message) st e h = (sym e, h)
    cached_lem slug (returns view) st e h = (
      sym e,
      record {
        entries_kept = h.entries_kept;
        catalog_kept = h.catalog_kept;
        details_kept =
            All-put (λ (slug, view). page_now slug ≡ returns view) slug view st.detail_cache e
              h.details_kept;
      },
    )

    load_os_detail_lem :
        (slug : Text) (st : Site fl)
        → IsSound st
        → ((load_os_detail fl collection scores ral_classic ral_design_plus name_before slug st).0
            ≡ page_now slug)
          × IsSound
              (load_os_detail fl collection scores ral_classic ral_design_plus name_before slug
                st).1
    unfolding load_os_detail
    load_os_detail_lem slug st h = elim (Option-cases (lookup slug st.detail_cache)) [
      | inl e ↦
          let (same, sound) = load_catalog_lem st h in
          let (same', sound') = load_entries_lem (load_catalog fl collection scores st).1 sound in
          let with_catalog = load_catalog fl collection scores st in
          let with_entries = load_entries fl collection scores with_catalog.1 in
          let made : page_now slug ≡ page_with slug with_catalog.0 with_entries.0 =
            λ i. page_with slug (sym same i) (sym same' i) in
          rw (e, load_os_detail) (cached_lem slug _ _ made sound')
      | inr (view, e) ↦
          let kept =
            lookup-All (λ (slug, view). page_now slug ≡ returns view) slug st.detail_cache view e
              h.details_kept in
          rw (e, load_os_detail) (sym kept, h)
    ]

    -- what a request comes to where nothing is kept
    abbrev pub answer_now : Request → Response fl
    answer_now (view_json slug) =
        json_of (page_now slug >>= λ view. returns (os_view_json_from_view view))
    answer_now (bootstrap slug hex) = bootstrap_of (started_page fl hex (page_now slug))

    respond_lem :
        (r : Request) (st : Site fl)
        → IsSound st
        → ((respond fl collection scores ral_classic ral_design_plus name_before r st).0
            ≡ answer_now r)
          × IsSound (respond fl collection scores ral_classic ral_design_plus name_before r st).1
    unfolding respond load_os_view_json load_os_bootstrap
    respond_lem (view_json slug) st h =
        let (same, sound) = load_os_detail_lem slug st h in
        (ap (λ o. json_of (o >>= λ view. returns (os_view_json_from_view view))) same, sound)
    respond_lem (bootstrap slug hex) st h =
        let (same, sound) = load_os_detail_lem slug st h in
        (ap (λ o. bootstrap_of (started_page fl hex o)) same, sound)

    respond_all_sound :
        (rs : List Request) (st : Site fl)
        → IsSound st
        → respond_all fl collection scores ral_classic ral_design_plus name_before rs st
          ≡ map answer_now rs
    unfolding respond_all
    respond_all_sound [] st h = refl
    respond_all_sound (r ∷ rs) st h =
        let (same, sound) = respond_lem r st h in
        let rest =
          respond_all_sound rs
            (respond fl collection scores ral_classic ral_design_plus name_before r st).1 sound in
        λ i. same i ∷ rest i

    -- Whatever pages are asked for in one build and in whatever order, each answer, an error included, is
    -- the one that the entries, the catalog and the page give when they are computed afresh for it.
    pub respond_all_lem :
        (rs : List Request)
        → respond_all fl collection scores ral_classic ral_design_plus name_before rs (fresh fl)
          ≡ map answer_now rs
    respond_all_lem rs =
        respond_all_sound rs (fresh fl)
          (record { entries_kept = tt; catalog_kept = tt; details_kept = tt })
