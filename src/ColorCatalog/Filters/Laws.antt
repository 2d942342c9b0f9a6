-- ===== src/ColorCatalog/Filters/Laws.antt =====
-- The filter by system and its panel agree: an option is disabled exactly when picking it would leave
-- no color.
use desktopcolors.Common.{
  List, [], ◌∷◌, ◌++◌, map, Bool, true, false, not, ◌&&◌, ◌||◌, ◌≡◌, refl, sym, ap, ◌∙◌, arith,
  Text, text_eq, all, any, filter, is_empty, Dict, keys, put, Bool-cases, inl, inr,
}
use desktopcolors.Color.Floats.{Floats}
use desktopcolors.ColorCatalog.Defs.{ColorEntry}
use desktopcolors.ColorCatalog.Platforms.{Platform}
use desktopcolors.ColorCatalog.Filters.{
  OsMode, any_of, all_of, OsSelection, selected, has, platforms_at, os_match, default_match,
  ships_on, os_option_disabled, os_matches,
}

any_cong {ℓ} :
    {A : Type ℓ} (p q : A → Bool) (xs : List A) → ((x : A) → p x ≡ q x) → any p xs ≡ any q xs
any_cong p q [] h = refl
any_cong p q (x ∷ xs) h = λ i. h x i || any_cong p q xs h i

all_cong {ℓ} :
    {A : Type ℓ} (p q : A → Bool) (xs : List A) → ((x : A) → p x ≡ q x) → all p xs ≡ all q xs
all_cong p q [] h = refl
all_cong p q (x ∷ xs) h = λ i. h x i && all_cong p q xs h i

-- picking a system that is not selected adds it behind the others
pub keys-put :
    (k : Text) (sel : OsSelection)
    → any (λ j. text_eq j k) (keys sel) ≡ false
    → keys (put k tt sel) ≡ keys sel ++ k ∷ []
unfolding put
keys-put k [] h = refl
keys-put k ((j, u) ∷ sel) h = ground (arith, keys-put k sel)

has_default-has :
    (k : Text) (ps : List Platform)
    → has (map (λ p. p.slug) (filter (λ p. p.is_default) ps)) k ≡ true
    → has (map (λ p. p.slug) ps) k ≡ true
has_default-has k [] h = h
has_default-has k (p ∷ ps) h = ground (arith, has_default-has k ps)

module _ (p q : Text → Bool) (sub : (k : Text) → q k ≡ true → p k ≡ true) where
  all_sub : (ks : List Text) → all q ks ≡ true → all p ks ≡ true
  all_sub [] h = refl
  all_sub (k ∷ ks) h = ground (arith, sub k, all_sub ks)

  any_sub : (ks : List Text) → any q ks ≡ true → any p ks ≡ true
  any_sub [] h = h
  any_sub (k ∷ ks) h = ground (arith, sub k, any_sub ks)

module _ (d : Dict (List Platform)) where
  -- "Defaults only" narrows the filter by system: whatever is selected, in both modes, a color that is
  -- the default asked for also ships where it is asked for.
  pub default_match-os_match :
      (hex : Text) (sel : OsSelection) (mode : OsMode)
      → default_match d hex sel mode ≡ true
      → os_match d hex sel mode ≡ true
  unfolding default_match os_match
  default_match-os_match hex [] mode h = refl
  default_match-os_match hex ((k, u) ∷ sel) all_of h =
      all_sub _ _ (λ j. has_default-has j (platforms_at d hex)) (keys ((k, u) ∷ sel)) h
  default_match-os_match hex ((k, u) ∷ sel) any_of h =
      any_sub _ _ (λ j. has_default-has j (platforms_at d hex)) (keys ((k, u) ∷ sel)) h

has_default-any :
    (slug : Text) (ps : List Platform)
    → any (λ p. text_eq p.slug slug && (not true || p.is_default)) ps
      ≡ has (map (λ p. p.slug) (filter (λ p. p.is_default) ps)) slug
has_default-any slug [] = refl
has_default-any slug (p ∷ ps) = ground (arith, has_default-any slug ps)

has-any :
    (slug : Text) (ps : List Platform)
    → any (λ p. text_eq p.slug slug && (not false || p.is_default)) ps
      ≡ has (map (λ p. p.slug) ps) slug
has-any slug [] = refl
has-any slug (p ∷ ps) = ground (arith, has-any slug ps)

and_of_sub : (a b : Bool) → (b ≡ true → a ≡ true) → (a && b) ≡ b
and_of_sub true b h = refl
and_of_sub false true h = h refl
and_of_sub false false h = refl

or_false : (a : Bool) → (a || false) ≡ a
or_false true = refl
or_false false = refl

and_true : (a : Bool) → (a && true) ≡ a
and_true true = refl
and_true false = refl

module _ (d : Dict (List Platform)) (hex : Text) where
  -- where something is selected the grid's filter is one test of `shipsOn` for each system
  os_matches_all :
      (sel : OsSelection) (defaults_only : Bool)
      → is_empty sel ≡ false
      → os_matches d hex sel all_of defaults_only ≡ all (ships_on d defaults_only hex) (keys sel)
  unfolding os_matches ships_on
  os_matches_all [] dflt h = cc
  os_matches_all ((k, u) ∷ sel) true h =
      and_of_sub _ _ (default_match-os_match d hex ((k, u) ∷ sel) all_of)
      ∙ sym (all_cong _ _ (keys ((k, u) ∷ sel)) (λ s. has_default-any s (platforms_at d hex)))
  os_matches_all ((k, u) ∷ sel) false h =
      and_true _ ∙ sym (all_cong _ _ (keys ((k, u) ∷ sel)) (λ s. has-any s (platforms_at d hex)))

  os_matches_any :
      (k : Text) (defaults_only : Bool)
      → os_matches d hex ((k, tt) ∷ []) any_of defaults_only ≡ ships_on d defaults_only hex k
  unfolding os_matches ships_on
  os_matches_any k true =
      and_of_sub _ _ (default_match-os_match d hex ((k, tt) ∷ []) any_of)
      ∙ or_false _
      ∙ sym (has_default-any k (platforms_at d hex))
  os_matches_any k false = and_true _ ∙ or_false _ ∙ sym (has-any k (platforms_at d hex))

put_nonempty : (k : Text) (sel : OsSelection) → is_empty (put k tt sel) ≡ false
unfolding put
put_nonempty k [] = refl
put_nonempty k ((j, u) ∷ sel) = ground arith

-- What the panel tries for a candidate: in ALL mode the systems that are selected with it, in ANY mode
-- the candidate alone, since the others keep what they have.
abbrev pub tried : OsMode → Text → OsSelection → OsSelection
tried all_of candidate sel = put candidate tt sel
tried any_of candidate sel = (candidate, tt) ∷ []

module _ (d : Dict (List Platform)) {fl : Floats} (candidate : Text)
    (universe : List (ColorEntry fl)) (sel : OsSelection) (defaults_only : Bool) where
  disabled_of_unselected :
      (mode : OsMode)
      → any (λ k. text_eq k candidate) (selected sel) ≡ false
      → os_option_disabled d candidate universe sel mode defaults_only
        ≡ not (any (λ c. os_matches d c.hex (tried mode candidate sel) mode defaults_only) universe)
  unfolding os_option_disabled
  disabled_of_unselected all_of h =
      rw (h, os_option_disabled)
        (ap not (
          any_cong _ _ universe (λ c.
            ap (all (ships_on d defaults_only c.hex)) (sym (keys-put candidate sel h))
            ∙ sym (
                os_matches_all d c.hex (put candidate tt sel) defaults_only
                  (put_nonempty candidate sel)))))
  disabled_of_unselected any_of h =
      rw (h, os_option_disabled)
        (ap not (any_cong _ _ universe (λ c. sym (os_matches_any d c.hex candidate defaults_only))))

  disabled_of_selected :
      (mode : OsMode)
      → any (λ k. text_eq k candidate) (selected sel) ≡ true
      → os_option_disabled d candidate universe sel mode defaults_only ≡ false
  unfolding os_option_disabled
  disabled_of_selected all_of h = rw (h, os_option_disabled)
  disabled_of_selected any_of h = rw (h, os_option_disabled)

-- An option of the panel is disabled exactly when it is not selected and picking it would empty the
-- grid: the grid's own filter, "defaults only" included, keeps no color of the universe under the
-- systems that are selected with it (ALL mode), or under it alone (ANY mode).
pub os_option_disabled_lem :
    (d : Dict (List Platform)) {fl : Floats} (candidate : Text) (universe : List (ColorEntry fl))
    (sel : OsSelection) (mode : OsMode) (defaults_only : Bool)
    → os_option_disabled d candidate universe sel mode defaults_only ≡ (
        not (any (λ k. text_eq k candidate) (selected sel))
        && not
            (any (λ c. os_matches d c.hex (tried mode candidate sel) mode defaults_only) universe))
os_option_disabled_lem d candidate universe sel mode defaults_only =
    elim (Bool-cases (any (λ k. text_eq k candidate) (selected sel))) [
      | inl h ↦ rw h (disabled_of_selected d candidate universe sel defaults_only mode h)
      | inr h ↦ rw h (disabled_of_unselected d candidate universe sel defaults_only mode h)
    ]
