-- ===== src/SourceNote/Tests.antt =====
-- Runs of lib/sourceNote.ts on the examples of its unit tests, and its theorems at concrete notes.
use mathlib.Core.Path.{◌≡◌, refl}
use desktopcolors.Common.{[], ◌∷◌, ◌↔◌, Text, codes, run, All, Dict, arith, keys, List}
use desktopcolors.SourceNote.{
  Token, tokenize_source_note, source_note_link_errors, SourceNode, own, inherited,
  parse_source_note,
}
use desktopcolors.SourceNote.Tokens.{spell, spell_all, spell_all-tokenize_source_note}
use desktopcolors.SourceNote.Canonical.{tokenize_source_note-spell_all}
use desktopcolors.SourceNote.Markers.{Cites, IsResolved}
use desktopcolors.SourceNote.Links.{
  source_note_link_errors-eq-nil, RendersAll, parse_source_note-RendersAll,
  parse_source_note_inherited,
}

abbrev prose : Text
prose = codes "see [A b] and `c[d`, ``, [] [x"

abbrev prose_tokens : List Token
prose_tokens =
    Token.text (codes "see ")
    ∷ Token.marker (codes "A b")
    ∷ Token.text (codes " and ")
    ∷ Token.code (codes "c[d")
    ∷ Token.text (codes ", ``, [] [x")
    ∷ []

tokens : tokenize_source_note prose ≡ prose_tokens
unfolding tokenize_source_note
tokens = refl

abbrev link_map : Dict Text
link_map = (codes "a", codes "u") ∷ (codes "c", codes "v") ∷ []

errors :
    source_note_link_errors (codes "[a] [b] [a]") link_map
    ≡ codes "source note cites [b] but \"links\" has no such entry"
      ∷ codes "source note \"links\" entry \"c\" is never cited as [c] in \"text\""
      ∷ []
unfolding source_note_link_errors run
errors = refl

abbrev sound : Text
sound = codes "[a], `x` and [c]"

sound_passes : source_note_link_errors sound link_map ≡ []
unfolding source_note_link_errors run
sound_passes = refl

parsed :
    parse_source_note sound link_map
    ≡ SourceNode.link (codes "a") (own (codes "u"))
      ∷ SourceNode.text (codes ", ")
      ∷ SourceNode.code (codes "x")
      ∷ SourceNode.text (codes " and ")
      ∷ SourceNode.link (codes "c") (own (codes "v"))
      ∷ []
unfolding parse_source_note run
parsed = refl

spell_all-tokenize_source_note_example : spell_all (tokenize_source_note prose) ≡ prose
spell_all-tokenize_source_note_example = spell_all-tokenize_source_note prose

abbrev canonical : List Token
canonical = Token.text (codes "in ") ∷ Token.marker (codes "A`b") ∷ Token.code (codes "]") ∷ []

tokenize_source_note-spell_all_example : tokenize_source_note (spell_all canonical) ≡ canonical
tokenize_source_note-spell_all_example = tokenize_source_note-spell_all canonical (ground arith)

source_note_link_errors-eq-nil_example : (source_note_link_errors sound link_map ≡ []) ↔ (
    All (IsResolved link_map) (tokenize_source_note sound)
    × All (λ key. Cites key (tokenize_source_note sound)) (keys link_map))
source_note_link_errors-eq-nil_example = source_note_link_errors-eq-nil sound link_map

parse_source_note-RendersAll_example :
    RendersAll link_map (tokenize_source_note sound) (parse_source_note sound link_map)
parse_source_note-RendersAll_example = parse_source_note-RendersAll sound link_map sound_passes

parse_source_note_inherited_example :
    (source_note_link_errors (spell (Token.marker (codes "toString"))) [] ≡ [])
    × (parse_source_note (spell (Token.marker (codes "toString"))) []
        ≡ SourceNode.link (codes "toString") inherited ∷ [])
unfolding run
parse_source_note_inherited_example =
    parse_source_note_inherited (codes "toString") (ground arith) (omega arith) refl
