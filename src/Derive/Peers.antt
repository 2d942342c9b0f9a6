-- ===== src/Derive/Peers.antt =====
-- What `eraPeers` returns, and when it throws.
use mathlib.Core.List.{Perm}
use mathlib.Core.Path.{fun_ext}
use desktopcolors.Common.{
  ℕ, ◌+◌, List, [], ◌∷◌, some, Bool, not, ◌&&◌, ◌≡◌, ◌≢◌, refl, subst, arith, text_eq, All,
  All-filter_of, filter, find?, sort, IsSorted, sort-IsSorted, sort-perm, key-IsWeakOrder, All-unit,
  ltb, leb, Option-cases, inl, inr, get_elem?,
}
use desktopcolors.Content.{OsInput, OsColor}
use desktopcolors.Derive.Defs.{
  OsEntry, EraPeer, default_color, make_peer, peer_of, is_peer, map_option, era_peers,
}

-- an entry that the schema accepts has a color
abbrev pub HasColors : OsEntry → Type 0
HasColors e = e.os.colors ≢ []

get_elem?-first {ℓ} : {A : Type ℓ} (xs : List A) → xs ≢ [] → (x : A) × (get_elem? xs 0 ≡ some x)
get_elem?-first [] h = absurd (h refl)
get_elem?-first (x ∷ xs) h = (x, refl)

pub default_color_total :
    (os : OsInput) → os.colors ≢ [] → (c : OsColor) × (default_color os ≡ some c)
unfolding default_color
default_color_total os h = elim (Option-cases (find? (λ c. c.default) os.colors)) [
  | inl e ↦ let (c, first) = get_elem?-first os.colors h in (c, rw (e, default_color) first)
  | inr (c, e) ↦ (c, rw (e, default_color))
]

-- a color is found only where there is one
pub default_color_inv : (os : OsInput) (c : OsColor) → default_color os ≡ some c → os.colors ≢ []
unfolding default_color
default_color_inv os c h e = ground arith

-- what is kept of an entry in its peer
abbrev pub Mirrors : EraPeer → OsEntry → Type 0
Mirrors p e =
    (p.slug ≡ e.slug) × (p.year ≡ e.os.year) × (p.name ≡ e.os.name) × (p.family ≡ e.os.family)

abbrev pub MirrorsAll : List EraPeer → List OsEntry → Type 0
MirrorsAll [] [] = Unit
MirrorsAll [] (e ∷ es) = ⊥
MirrorsAll (p ∷ ps) [] = ⊥
MirrorsAll (p ∷ ps) (e ∷ es) = Mirrors p e × MirrorsAll ps es

peer_of_total :
    (base : ℕ) (e : OsEntry) → HasColors e → (p : EraPeer) × (peer_of base e ≡ some p) × Mirrors p e
unfolding peer_of
peer_of_total base e h =
    let (c, found) = default_color_total e.os h in
    (make_peer base e c, rw (found, peer_of), (refl, refl, refl, refl))

map_option_total :
    (base : ℕ) (es : List OsEntry)
    → All HasColors es
    → (ps : List EraPeer) × (map_option (peer_of base) es ≡ some ps) × MirrorsAll ps es
unfolding map_option
map_option_total base [] h = ([], refl, tt)
map_option_total base (e ∷ es) h =
    let (p, made, mirrors) = peer_of_total base e h.0 in
    let (ps, rest, all_mirror) = map_option_total base es h.1 in
    (p ∷ ps, rw (made, rest) refl, (mirrors, all_mirror))

-- the systems of an era: of another slug, and at most so many years before or after the entry
abbrev pub is_contemporary : OsEntry → ℕ → OsEntry → Bool
is_contemporary entry window e =
    leb e.os.year (entry.os.year + window)
    && leb entry.os.year (e.os.year + window)
    && not (text_eq e.slug entry.slug)

is_peer_lem :
    (entry : OsEntry) (window : ℕ) (e : OsEntry)
    → is_peer entry window e ≡ is_contemporary entry window e
unfolding is_peer
is_peer_lem entry window e = ground arith

-- Where every entry has a color, as the schema makes sure, `eraPeers` does not throw. It returns one
-- peer for each entry of another slug whose year is at most `window` years before or after, with its
-- slug, year, name and family, and no more, in rising order of the years.
pub era_peers_total :
    (entry : OsEntry) (entries : List OsEntry) (window : ℕ)
    → All HasColors entries
    → (ps : List EraPeer) × (era_peers entry entries window ≡ some ps)
      × IsSorted (λ a b. ltb a.year b.year) ps
      × ((made : List EraPeer) × Perm ps made
          × MirrorsAll made (filter (is_contemporary entry window) entries))
unfolding era_peers
era_peers_total entry entries window h =
    let near = filter (is_peer entry window) entries in
    let (made, e, mirrors) =
      map_option_total entry.os.year near
        (All-filter_of HasColors (is_peer entry window) entries h) in
    let by_year : EraPeer → EraPeer → Bool = λ a b. ltb a.year b.year in
    (
      sort by_year made,
      rw (e, era_peers),
      sort-IsSorted (λ p. Unit) by_year (key-IsWeakOrder (λ p. p.year)) made (All-unit made),
      (
        made,
        sort-perm by_year made,
        subst (λ p. MirrorsAll made (filter p entries)) (fun_ext (is_peer_lem entry window))
            mirrors,
      ),
    )
