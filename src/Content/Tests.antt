-- ===== src/Content/Tests.antt =====
-- An entry that the schema of content/config.ts accepts.
use desktopcolors.Common.{
  ◌≤◌, [], ◌∷◌, Option, none, some, true, false, ◌≡◌, refl, Text, codes, length, filter, All,
  if◌then◌else◌, starts_with, run,
}
use desktopcolors.SourceNote.{source_note_link_errors}
use desktopcolors.Content.Schema.{OsInput, win9x, is_os_input}
use desktopcolors.Content.Accepted.{RoundTrips, note_errors, is_os_input_lem}

-- the protocols of the addresses below
abbrev protocol : Text → Option Text
protocol u = if starts_with u (codes "https://") then some (codes "https:") else none

abbrev win95 : OsInput
win95 = record {
  name = codes "Windows 95";
  year = 1995;
  added = codes "2026-06-01";
  family = codes "Windows";
  description = codes "Teal.";
  predecessor = none;
  successor = none;
  desktop_style = win9x;
  kind = none;
  project = none;
  links = [];
  wikipedia = some (codes "https://en.wikipedia.org/");
  source =
      some (record { text = codes "See [a]."; links = (codes "a", codes "https://a.org") ∷ [] });
  colors =
      record { hex = codes "#008080"; name = codes "Teal"; note = []; default = true }
      ∷ record { hex = codes "#3a6ea5"; name = codes "Blue"; note = []; default = false }
      ∷ [];
}

is_os_input_lem_example :
    All (λ c. RoundTrips c.hex) win95.colors
    × (1 ≤ length win95.colors)
    × (length (filter (λ c. c.default) win95.colors) ≤ 1)
    × (note_errors win95.source ≡ [])
unfolding is_os_input source_note_link_errors starts_with run
is_os_input_lem_example = is_os_input_lem protocol none win95 refl
