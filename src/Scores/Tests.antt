-- ===== src/Scores/Tests.antt =====
-- Runs of lib/scores.ts, and its theorem at a concrete file.
use desktopcolors.Common.{
  [], ◌∷◌, none, some, true, false, ◌≡◌, refl, Text, codes, to_lower_case, get_or, Distinct, keys,
  lookup, run,
}
use desktopcolors.Scores.Defs.{
  Json, null, number, non_finite, object, Fields, end, field, entries, points, inherited, no_scores,
  parse_scores, load_scores, missing, contents, not_found, malformed, color_score, os_score,
}
use desktopcolors.Scores.Laws.{last_value, last_number, member_entries, read_as, parse_scores_lem}

abbrev dump : Json
dump = object (
    field (codes "colors")
      (object (
        field (codes "#0080AA") (number 4)
          (field (codes "#0080aa") (number 7) (field (codes "#ffffff") non_finite end))))
      (field (codes "os")
        (object (
          field (codes "win95") (number 9)
            (field (codes "beos") (number 5) (field (codes "beos") null end))))
        end))

parsed :
    (color_score (parse_scores dump) (codes "#0080aA") ≡ 7)
    × (color_score (parse_scores dump) (codes "#ffffff") ≡ 0)
    × (os_score (parse_scores dump) (codes "win95") ≡ points 9)
    × (os_score (parse_scores dump) (codes "Win95") ≡ points 0)
    × (os_score (parse_scores dump) (codes "beos") ≡ points 0)
    × (os_score (parse_scores dump) (codes "constructor") ≡ inherited)
unfolding parse_scores color_score os_score run
parsed = (refl, refl, refl, refl, refl, refl)

-- the three fallbacks
fallbacks :
    (load_scores (λ s. none) (codes "scores.json") missing ≡ (no_scores, not_found ∷ []))
    × (load_scores (λ s. none) (codes "s") (contents []) ≡ (no_scores, malformed (codes "s") ∷ []))
    × (load_scores (λ s. some dump) (codes "s") (contents []) ≡ (parse_scores dump, []))
unfolding load_scores
fallbacks = (refl, refl, refl)

parse_scores_lem_example :
    (color_score (parse_scores dump) (codes "#0080AA")
      ≡ get_or
          (last_number true
            (to_lower_case (codes "#0080AA"))
            (member_entries (codes "colors") dump)
            none)
          0)
    × (os_score (parse_scores dump) (codes "win95")
        ≡ read_as
            (codes "win95")
            (last_number false (codes "win95") (member_entries (codes "os") dump) none))
    × ((gs : Fields)
        → Distinct (keys (entries (object gs)))
          × ((key : Text) → lookup key (entries (object gs)) ≡ last_value key gs))
parse_scores_lem_example =
    parse_scores_lem dump (codes "#0080AA") (codes "win95") (unfold run in refl)
      (unfold run in refl)
