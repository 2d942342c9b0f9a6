-- ===== src/Site/Defs.antt =====
-- The memoized loaders of lib/entries.ts, lib/loadCatalog.ts and lib/osDetail.ts. The variables of these
-- modules are a state that each loader takes and returns; a promise is its outcome. What
-- `getCollection("os")` resolves to and what `loadScores` returns are parameters, which stay the same
-- throughout a build.
use desktopcolors.Common.{
  List, [], ◌∷◌, map, Option, none, some, Bool, Text, codes, text_eq, get_or, if◌then◌else◌, Dict,
  lookup, put,
}
use desktopcolors.Content.{OsInput}
use desktopcolors.Color.Floats.{Floats}
use desktopcolors.Color.Spaces.{RalColor}
use desktopcolors.Scores.{Scores}
use desktopcolors.Catalog.{Outcome, throws, returns, ◌>>=◌, Catalog, build_catalog}
use desktopcolors.Derive.Defs.{OsEntry}
use desktopcolors.Detail.Defs.{
  OsDetailView, OsDetailBootstrap, OsViewJson, bootstrap_from_view, os_view_json_from_view,
}
use desktopcolors.Detail.Build.{build_os_detail}

-- an entry of the collection: its file, the slug that it may give, and its data
pub record CollectionEntry : Type 0 where
  pub id : Text
  pub slug : Option Text
  pub os : OsInput

-- `id.replace(/\.json$/, "")`
unfoldable pub strip_json : Text → Text
strip_json [] = []
strip_json (c ∷ s) =
    let rest = c ∷ strip_json s in if text_eq (c ∷ s) (codes ".json") then [] else rest

unfoldable pub entry_from : CollectionEntry → OsEntry
unfolding strip_json
entry_from e = record { slug = get_or e.slug (strip_json e.id); os = e.os }

-- `collection.map(...)` where the collection resolves
unfoldable pub collected : Outcome (List CollectionEntry) → Outcome (List OsEntry)
unfolding entry_from
collected collection = collection >>= λ es. returns (map entry_from es)

-- what a page of the site asks for
pub data Request : Type 0 where
  view_json : Text → Request
  bootstrap : Text → Option Text → Request

module _ (fl : Floats) where
  open fl use {F}

  -- `entriesPromise`, `catalogPromise`, `detailCache`
  pub record Site : Type 0 where
    pub entries_promise : Option (Outcome (List OsEntry))
    pub catalog_promise : Option (Outcome Catalog)
    pub detail_cache : Dict (OsDetailView F)

  abbrev pub fresh : Site
  fresh = record { entries_promise = none; catalog_promise = none; detail_cache = [] }

  -- a page that is built goes to the cache
  abbrev pub cached : Text → Outcome (OsDetailView F) → Site → Outcome (OsDetailView F) × Site
  cached slug (throws message) st = (throws message, st)
  cached slug (returns view) st =
      (returns view, record st { detail_cache = put slug view st.detail_cache })

  abbrev pub started_page : Option Text → Outcome (OsDetailView F) → Outcome (OsDetailBootstrap F)
  started_page initial_hex loaded = loaded >>= λ view. elim (bootstrap_from_view view initial_hex) [
    | none ↦ throws (codes "Cannot read properties of undefined")
    | some started ↦ returns started
  ]

  pub data Response : Type 0 where
    json_of : Outcome (OsViewJson F) → Response
    bootstrap_of : Outcome (OsDetailBootstrap F) → Response

  module _ (collection : Outcome (List CollectionEntry)) (scores : Scores) where
    -- `entriesPromise ??= ...`
    unfoldable pub load_entries : Site → Outcome (List OsEntry) × Site
    unfolding collected
    load_entries st = elim st.entries_promise [
      | none ↦
          let loaded = collected collection in (loaded, record st { entries_promise = some loaded })
      | some kept ↦ (kept, st)
    ]

    -- `catalogPromise ??= ...`: a catalog that cannot be built stays rejected
    unfoldable pub load_catalog : Site → Outcome Catalog × Site
    unfolding load_entries
    load_catalog st = elim st.catalog_promise [
      | none ↦
          let loaded = load_entries st in
          let made = loaded.0 >>= λ es. build_catalog fl es scores in
          (made, record loaded.1 { catalog_promise = some made })
      | some kept ↦ (kept, st)
    ]

    module _ (ral_classic ral_design_plus : List RalColor) (name_before : Text → Text → Bool) where
      unfoldable pub load_os_detail : Text → Site → Outcome (OsDetailView F) × Site
      unfolding load_catalog
      load_os_detail slug st = elim (lookup slug st.detail_cache) [
        | none ↦
            let with_catalog = load_catalog st in
            let with_entries = load_entries with_catalog.1 in
            cached slug
              (with_catalog.0 >>= λ catalog. with_entries.0 >>= λ entries.
                build_os_detail fl ral_classic ral_design_plus name_before entries catalog slug)
              with_entries.1
        | some view ↦ (returns view, st)
      ]

      unfoldable pub load_os_bootstrap :
          Text → Option Text → Site → Outcome (OsDetailBootstrap F) × Site
      unfolding load_os_detail
      load_os_bootstrap slug initial_hex st =
          let loaded = load_os_detail slug st in (started_page initial_hex loaded.0, loaded.1)

      unfoldable pub load_os_view_json : Text → Site → Outcome (OsViewJson F) × Site
      unfolding load_os_detail
      load_os_view_json slug st =
          let loaded = load_os_detail slug st in
          (loaded.0 >>= λ view. returns (os_view_json_from_view view), loaded.1)

      unfoldable pub respond : Request → Site → Response × Site
      unfolding load_os_bootstrap load_os_view_json
      respond (view_json slug) st = let r = load_os_view_json slug st in (json_of r.0, r.1)
      respond (bootstrap slug hex) st =
          let r = load_os_bootstrap slug hex st in (bootstrap_of r.0, r.1)

      -- the pages of a build, one after the other
      unfoldable pub respond_all : List Request → Site → List Response
      unfolding respond
      respond_all [] st = []
      respond_all (r ∷ rs) st = let answer = respond r st in answer.0 ∷ respond_all rs answer.1
