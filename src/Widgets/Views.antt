-- ===== src/Widgets/Views.antt =====
-- The theorems on what the smaller parts of the pages link to, at concrete values.
use desktopcolors.Common.{[], ◌∷◌, none, true, false, ◌≡◌, codes, All, Text, List, run}
use desktopcolors.Catalog.{color_path}
use desktopcolors.Color.Micros.{micros}
use desktopcolors.Detail.Samples.{use_of}
use desktopcolors.SourceNote.{tokenize_source_note, parse_source_note}
use desktopcolors.Widgets.Anchors.{hrefs}
use desktopcolors.Widgets.Note.{source_note_view, cited, IsSafe, source_note_view_lem}
use desktopcolors.Widgets.Timeline.{Timeline, is_current}
use desktopcolors.Widgets.TimelineView.{known_uses_timeline}
use desktopcolors.Widgets.Links.{hrefs-known_uses_timeline}

abbrev note : Text
note = codes "Taken with `scrot` in [v86]."

abbrev links : List (Text × Text)
links = (codes "v86", codes "https://copy.sh/v86/") ∷ []

source_note_view_lem_example :
    (hrefs (source_note_view (parse_source_note note links))
      ≡ cited links (tokenize_source_note note))
    × All IsSafe (source_note_view (parse_source_note note links))
source_note_view_lem_example = source_note_view_lem note links

abbrev list_open : Timeline
list_open = record { expanded = true; hover = none }

hrefs-known_uses_timeline_example :
    hrefs (
      known_uses_timeline micros
        (use_of (codes "win95") true)
        (use_of (codes "win98") false ∷ [])
        (codes "#008080")
        (codes "win95")
        list_open)
    ≡ color_path (codes "win98") (codes "#008080") ∷ []
unfolding run is_current
hrefs-known_uses_timeline_example =
    hrefs-known_uses_timeline micros (use_of (codes "win95") true)
      (use_of (codes "win98") false ∷ []) (codes "#008080") (codes "win95") list_open
