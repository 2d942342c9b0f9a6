-- ===== src/Controls/Search.antt =====
-- What the search of islands/PlatformControls.tsx finds.
use mathlib.Core.List.{Perm, append-nil, perm_middle}
use mathlib.Core.List.Perm
use desktopcolors.Common.{
  List, [], ◌∷◌, ◌++◌, Bool, true, false, ◌||◌, ◌≡◌, ◌↔◌, ◌⊎◌, refl, arith, inl, inr, Text,
  to_lower_case, trim, starts_with, includes, is_empty, filter, any, All, Any, Bool-cases,
  if◌then◌else◌,
}
use desktopcolors.Controls.Defs.{AltColor, PlatformItem, item_matches, searched}

-- the text has the query somewhere
abbrev pub Occurs : Text → Text → Type 0
Occurs q s = (before after : Text) × (s ≡ before ++ (q ++ after))

-- the places where the page looks for a query
abbrev pub Mentions : Text → PlatformItem → Type 0
Mentions q it =
    ((Occurs q (to_lower_case it.name) ⊎ Occurs q (to_lower_case it.family))
      ⊎ Occurs q it.default_hex)
    ⊎ Any (λ c. Occurs q (to_lower_case c.name) ⊎ Occurs q c.hex) it.alt_colors

starts_with-some : (s q : Text) → starts_with s q ≡ true → (after : Text) × (s ≡ q ++ after)
unfolding starts_with
starts_with-some s [] h = (s, refl)
starts_with-some [] (b ∷ q) h = cc h
starts_with-some (a ∷ s) (b ∷ q) h =
    let (after, e) = starts_with-some s q (ground arith) in
    let same : a ≡ b = ground arith in (after, λ i. same i ∷ e i)

starts_with-append : (q after : Text) → starts_with (q ++ after) q ≡ true
unfolding starts_with
starts_with-append [] after = refl
starts_with-append (b ∷ q) after = ground (arith, starts_with-append q after)

includes-some : (s q : Text) → includes s q ≡ true → Occurs q s
unfolding includes
includes-some [] q h = let (after, e) = starts_with-some [] q h in ([], after, e)
includes-some (a ∷ s) q h = elim (Bool-cases (starts_with (a ∷ s) q)) [
  | inl here ↦ let (after, e) = starts_with-some (a ∷ s) q here in ([], after, e)
  | inr no_start ↦
      let (before, after, e) = includes-some s q (ground (arith, no_start, h)) in
      (a ∷ before, after, λ i. a ∷ e i)
]

includes-append : (before q after : Text) → includes (before ++ (q ++ after)) q ≡ true
unfolding includes
includes-append [] [] [] = unfold starts_with in refl
includes-append [] [] (a ∷ after) = unfold starts_with in refl
includes-append [] (b ∷ q) after = rw (starts_with-append (b ∷ q) after) refl
includes-append (a ∷ before) q after =
    let later = includes-append before q after in ground (arith, later)

includes_lem : (s q : Text) → (includes s q ≡ true) ↔ Occurs q s
includes_lem s q = (includes-some s q, λ (before, after, e). rw e (includes-append before q after))

or_lem :
    {P Q : Type 0} (a b : Bool) → ((a ≡ true) ↔ P) → ((b ≡ true) ↔ Q) → ((a || b) ≡ true) ↔ (P ⊎ Q)
or_lem true b h k = (λ e. inl (h.0 refl), λ p. refl)
or_lem false b h k = (λ e. inr (k.0 e), λ p. elim p [ inl x ↦ cc (h.1 x) | inr y ↦ k.1 y ])

any_lem :
    {A : Type 0} {P : A → Type 0} (p : A → Bool)
    → ((x : A) → (p x ≡ true) ↔ P x)
    → (xs : List A) → (any p xs ≡ true) ↔ Any P xs
any_lem p h [] = (λ e. cc e, λ e. absurd e)
any_lem p h (x ∷ xs) = or_lem (p x) (any p xs) (h x) (any_lem p h xs)

item_matches_lem : (q : Text) (it : PlatformItem) → (item_matches q it ≡ true) ↔ Mentions q it
unfolding item_matches
item_matches_lem q it =
    let name = includes (to_lower_case it.name) q in
    let family = includes (to_lower_case it.family) q in
    let hex = includes it.default_hex q in
    let in_color : AltColor → Bool = λ c. includes (to_lower_case c.name) q || includes c.hex q in
    or_lem (name || family || hex) (any in_color it.alt_colors)
      (or_lem (name || family) hex
        (or_lem name family (includes_lem (to_lower_case it.name) q)
          (includes_lem (to_lower_case it.family) q))
        (includes_lem it.default_hex q))
      (any_lem in_color
        (λ c.
          or_lem (includes (to_lower_case c.name) q) (includes c.hex q)
            (includes_lem (to_lower_case c.name) q) (includes_lem c.hex q))
        it.alt_colors)

-- a list in two parts, those that a test takes and those that it leaves
split_lem :
    {A : Type 0} {P : A → Type 0} (p : A → Bool)
    → ((x : A) → (p x ≡ true) ↔ P x)
    → (xs : List A)
    → (left_out : List A) × Perm xs (filter p xs ++ left_out)
      × All P (filter p xs)
      × All (λ x. ¬ (P x)) left_out
split_lem p h [] = ([], Perm.rfl, tt, tt)
split_lem p h (x ∷ xs) =
    let (left_out, all_there, hits, misses) = split_lem p h xs in
    elim (Bool-cases (p x)) [
      | inl e ↦ rw e (left_out, Perm.cons x all_there, ((h x).0 e, hits), misses)
      | inr e ↦ rw e (
        x ∷ left_out,
        Perm.trans (Perm.cons x all_there) (Perm.symm (perm_middle (filter p xs) left_out)),
        hits,
        (λ m. cc ((h x).1 m, e), misses),
      )
    ]

-- an empty query occurs everywhere
Mentions-nil : (items : List PlatformItem) → All (Mentions []) items
Mentions-nil [] = tt
Mentions-nil (it ∷ items) = (inl (inl (inl ([], to_lower_case it.name, refl))), Mentions-nil items)

pub searched_lem :
    (query : Text) (items : List PlatformItem)
    → (left_out : List PlatformItem) × Perm items (searched query items ++ left_out)
      × All (Mentions (to_lower_case (trim query))) (searched query items)
      × All (λ it. ¬ (Mentions (to_lower_case (trim query)) it)) left_out
unfolding searched
searched_lem query items = by_query (to_lower_case (trim query))
  where
    by_query :
        (q : Text)
        → let found = if is_empty q then items else filter (item_matches q) items in
          (left_out : List PlatformItem) × Perm items (found ++ left_out)
          × All (Mentions q) found
          × All (λ it. ¬ (Mentions q it)) left_out
    by_query [] = ([], rw append-nil Perm.rfl, Mentions-nil items, tt)
    by_query (c ∷ q) = split_lem (item_matches (c ∷ q)) (item_matches_lem (c ∷ q)) items
