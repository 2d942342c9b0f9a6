-- ===== src/Page/Defs.antt =====
-- The selection, the details and the steps of islands/OsDetail.tsx. The answer of the
-- fetch is an argument; the timers and the address bar are in Machine.
use desktopcolors.Common.{
  ℕ, ◌+◌, List, [], ◌∷◌, ◌++◌, map, Option, none, some, Bool, false, not, Text, codes, text_eq,
  to_lower_case, get_or, if◌then◌else◌, is_empty, length, get_elem?, find?, Dict, put,
}
use desktopcolors.Content.{OsLink}
use desktopcolors.Catalog.{OsView, ColorView}
use desktopcolors.ColorCatalog.Platforms.{Platform}
use desktopcolors.Detail.Defs.{DetailOf, SimilarOf, OsViewJson, denormalize_details}
use desktopcolors.Explorer.Defs.{Step, step_index}

-- `xs.findIndex(p)`, with `none` for -1
unfoldable pub find_index {ℓ} : {A : Type ℓ} → (A → Bool) → List A → Option ℕ
find_index p [] = none
find_index p (x ∷ xs) =
    let later : Option ℕ = elim (find_index p xs) [ none ↦ none | some i ↦ some (i + 1) ] in
    if p x then some 0 else later

unfoldable pub default_idx : List ColorView → ℕ
unfolding find_index
default_idx colors = get_or (find_index (λ c. c.is_default) colors) 0

-- no hex, or an empty one, selects the default
unfoldable pub idx_of_hex : List ColorView → Option Text → ℕ
unfolding default_idx
idx_of_hex colors none = default_idx colors
idx_of_hex colors (some hex) =
    if is_empty hex
    then default_idx colors
    else get_or (find_index (λ c. text_eq (to_lower_case c.hex) (to_lower_case hex)) colors)
        (default_idx colors)

-- `colors.forEach((col, i) => { if (dn[i]) map[col.hex.toLowerCase()] = dn[i]; })`
unfoldable pub by_hex {ℓ} : {A : Type ℓ} → List ColorView → List A → Dict A → Dict A
by_hex [] dn d = d
by_hex (c ∷ cs) [] d = d
by_hex (c ∷ cs) (x ∷ xs) d = by_hex cs xs (put (to_lower_case c.hex) x d)

-- `{ ...d, ...e }`
unfoldable pub spread {ℓ} : {A : Type ℓ} → Dict A → Dict A → Dict A
spread d [] = d
spread d ((k, v) ∷ e) = spread (put k v d) e

-- `colors[sel] ?? colors[0]`
unfoldable pub summary : List ColorView → ℕ → Option ColorView
summary colors sel = elim (get_elem? colors sel) [ some c ↦ some c | none ↦ get_elem? colors 0 ]

-- the first other color
unfoldable pub accent : List ColorView → Text → Option Text
accent colors hex = elim (find? (λ c. not (text_eq c.hex hex)) colors) [
  | none ↦ none
  | some c ↦ some c.hex
]

pub record Ref : Type 0 where
  pub url : Text
  pub label : Text

abbrev link_ref : OsLink → Ref
link_ref l = record { url = l.url; label = l.name }

-- the row of references, without its icons
unfoldable pub refs : OsView → List Ref
refs os =
    elim os.project [ none ↦ [] | some p ↦ link_ref p ∷ [] ]
    ++ (map link_ref os.links ++ elim os.wikipedia [
      | none ↦ []
      | some u ↦ if is_empty u then [] else record { url = u; label = codes "Wikipedia" } ∷ []
    ])

unfoldable pub has_source : OsView → Bool
has_source os = elim os.source [ none ↦ false | some nodes ↦ not (is_empty nodes) ]

module _ {F : Type 0} where
  -- what the details are once the answer has arrived; an answer that cannot be unpacked changes nothing
  unfoldable pub loaded :
      List ColorView → OsViewJson F → Dict (DetailOf F Platform) → Dict (DetailOf F Platform)
  unfolding by_hex spread
  loaded colors json prev = elim (denormalize_details json) [
    | none ↦ prev
    | some dn ↦ spread (by_hex colors dn []) prev
  ]

  -- the similar color that is expanded after a step
  unfoldable pub step_sim : Step → List (SimilarOf F Platform) → Option Text → Option Text
  unfolding find_index
  step_sim s similar sim_exp =
      let i =
        get_or (find_index (λ x. elim sim_exp [ none ↦ false | some e ↦ text_eq x.hex e ]) similar)
          0 in
      elim (get_elem? similar (step_index s i (length similar))) [
        | none ↦ sim_exp
        | some next ↦ some next.hex
      ]
