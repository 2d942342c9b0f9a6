-- ===== src/Site/Tests.antt =====
-- A build of two systems by the loaders of lib/osDetail.ts.
use desktopcolors.Common.{List, [], ◌∷◌, map, none, some, Bool, false, ◌≡◌, Text, codes, refl, run}
use desktopcolors.Color.Micros.{micros}
use desktopcolors.Scores.{no_scores}
use desktopcolors.Catalog.{Outcome, returns}
use desktopcolors.Derive.Defs.{OsEntry}
use desktopcolors.Samples.{two_entries}
use desktopcolors.Detail.Samples.{ral}
use desktopcolors.Site.Defs.{
  CollectionEntry, strip_json, fresh, Request, view_json, bootstrap, respond_all,
}
use desktopcolors.Site.Laws.{answer_now, respond_all_lem}

without_ending : strip_json (codes "win95.json") ≡ codes "win95"
unfolding strip_json run
without_ending = refl

inner_ending : strip_json (codes "a.json.bak") ≡ codes "a.json.bak"
unfolding strip_json run
inner_ending = refl

abbrev file_of : OsEntry → CollectionEntry
file_of e = record { id = codes "system.json"; slug = some e.slug; os = e.os }

abbrev collection : Outcome (List CollectionEntry)
collection = returns (map file_of two_entries)

abbrev before : Text → Text → Bool
before a b = false

abbrev requests : List Request
requests =
    bootstrap (codes "win95") (some (codes "#008080"))
    ∷ view_json (codes "win95")
    ∷ view_json (codes "unknown")
    ∷ bootstrap (codes "win95") none
    ∷ []

respond_all_lem_example :
    respond_all micros collection no_scores (ral ∷ []) (ral ∷ []) before requests (fresh micros)
    ≡ map (answer_now micros collection no_scores (ral ∷ []) (ral ∷ []) before) requests
respond_all_lem_example =
    respond_all_lem micros collection no_scores (ral ∷ []) (ral ∷ []) before requests
