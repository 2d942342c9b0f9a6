-- ===== src/Color/Nearest.antt =====
-- `closestRal` of lib/color.ts finds the nearest color of the palette, the first one where several
-- are nearest.
use mathlib.Core.List.{append_assoc, append-nil}
use desktopcolors.Common.{
  List, [], ◌∷◌, ◌++◌, some, true, false, ◌≡◌, refl, sym, subst, Text, All, All-map, All-append,
  Bool-cases, inl, inr,
}
use desktopcolors.Color.Floats.{Floats, IsOrdered}
use desktopcolors.Color.Spaces.{RalColor, hex_to_oklab, oklab_distance, nearest_from, closest_ral}

-- the distance that the loop compares
abbrev pub distance : (fl : Floats) → Text → RalColor → fl.F
distance fl hex ral = oklab_distance fl (hex_to_oklab fl hex) (hex_to_oklab fl ral.hex)

-- `best` stands in the palette; what stands before it is farther, and nothing behind it is nearer
pub record IsFirstNearest (fl : Floats) (d : RalColor → fl.F) (palette : List RalColor)
    (best : RalColor) : Type 0 where
  pub before : List RalColor
  pub after : List RalColor
  pub listed : palette ≡ before ++ best ∷ after
  pub farther : All (λ x. fl.lt (d best) (d x) ≡ true) before
  pub no_nearer : All (λ x. fl.lt (d x) (d best) ≡ false) after

module _ (fl : Floats) (o : IsOrdered fl) where
  lt_of_lt_of_not :
      (a b c : fl.F) → fl.is_nan c ≡ false → fl.lt a b ≡ true → fl.lt c b ≡ false → fl.lt a c ≡ true
  lt_of_lt_of_not a b c nan h k = elim (Bool-cases (fl.lt a c)) [
    | inl e ↦ e
    | inr e ↦ cc (o.neg_trans a c b nan e k)
  ]

  module _ (d : RalColor → fl.F) where
    abbrev IsNumber : List RalColor → Type 0
    IsNumber = All (λ x. fl.is_nan (d x) ≡ false)

    farther_than :
        (ral best : RalColor) (xs : List RalColor)
        → IsNumber xs
        → fl.lt (d ral) (d best) ≡ true
        → All (λ x. fl.lt (d x) (d best) ≡ false) xs
        → All (λ x. fl.lt (d ral) (d x) ≡ true) xs
    farther_than ral best [] n e h = tt
    farther_than ral best (x ∷ xs) n e h =
        (lt_of_lt_of_not _ _ _ n.0 e h.0, farther_than ral best xs n.1 e h.1)

    IsNumber-left : (xs ys : List RalColor) → IsNumber (xs ++ ys) → IsNumber xs
    IsNumber-left [] ys h = tt
    IsNumber-left (x ∷ xs) ys h = (h.0, IsNumber-left xs ys h.1)

    IsNumber-right : (xs ys : List RalColor) → IsNumber (xs ++ ys) → IsNumber ys
    IsNumber-right [] ys h = h
    IsNumber-right (x ∷ xs) ys h = IsNumber-right xs ys h.1

    -- one more color that is not nearer
    keep :
        (seen : List RalColor) (best ral : RalColor)
        → IsFirstNearest fl d seen best
        → fl.lt (d ral) (d best) ≡ false
        → IsFirstNearest fl d (seen ++ ral ∷ []) best
    keep seen best ral n e = record {
      before = n.before;
      after = n.after ++ ral ∷ [];
      listed = rw (n.listed, append_assoc);
      farther = n.farther;
      no_nearer = All-append _ n.after (ral ∷ []) n.no_nearer (e, tt);
    }

    -- one more color that is nearer
    take_over :
        (seen : List RalColor) (best ral : RalColor)
        → IsNumber seen
        → IsFirstNearest fl d seen best
        → fl.lt (d ral) (d best) ≡ true
        → IsFirstNearest fl d (seen ++ ral ∷ []) ral
    take_over seen best ral nums n e =
        let all_nums = subst IsNumber n.listed nums in
        let behind = IsNumber-right n.before (best ∷ n.after) all_nums in
        record {
          before = seen;
          after = [];
          listed = refl;
          farther = subst (All (λ x. fl.lt (d ral) (d x) ≡ true)) (sym n.listed) (
              All-append _ n.before (best ∷ n.after)
                (farther_than ral best n.before (IsNumber-left n.before (best ∷ n.after) all_nums) e
                  (All-map (λ x h. o.asymm _ _ h) n.before n.farther))
                (e, farther_than ral best n.after behind.1 e n.no_nearer));
          no_nearer = tt;
        }

  module _ (target : fl.F × fl.F × fl.F) where
    abbrev to_target : RalColor → fl.F
    to_target ral = oklab_distance fl target (hex_to_oklab fl ral.hex)

    nearest_from_lem :
        (rest seen : List RalColor) (best : RalColor)
        → IsNumber to_target seen
        → IsNumber to_target rest
        → IsFirstNearest fl to_target seen best
        → (b : RalColor) × (nearest_from fl target rest (to_target best) (some best) ≡ some b)
          × IsFirstNearest fl to_target (seen ++ rest) b
    unfolding nearest_from
    nearest_from_lem [] seen best ns nr n =
        (best, refl, subst (λ l. IsFirstNearest fl to_target l best) (sym (append-nil seen)) n)
    nearest_from_lem (ral ∷ rest) seen best ns nr n =
        let ns' = All-append _ seen (ral ∷ []) ns (nr.0, tt) in
        elim (Bool-cases (fl.lt (to_target ral) (to_target best))) [
          | inl e ↦
              let (b, found, nearest) =
                nearest_from_lem rest (seen ++ ral ∷ []) ral ns' nr.1
                  (take_over to_target seen best ral ns n e) in
              (
                b,
                rw e found,
                subst (λ l. IsFirstNearest fl to_target l b) (append_assoc seen _ _) nearest,
              )
          | inr e ↦
              let (b, found, nearest) =
                nearest_from_lem rest (seen ++ ral ∷ []) best ns' nr.1
                  (keep to_target seen best ral n e) in
              (
                b,
                rw e found,
                subst (λ l. IsFirstNearest fl to_target l b) (append_assoc seen _ _) nearest,
              )
        ]

-- For a nonempty palette whose colors all lie at a finite distance, `closestRal` returns a color of
-- the palette: the colors before it are farther from the given one, and none behind it is nearer.
pub closest_ral-IsFirstNearest :
    (fl : Floats) (o : IsOrdered fl) (hex : Text) (ral : RalColor) (palette : List RalColor)
    → All (λ x. fl.is_finite (distance fl hex x) ≡ true) (ral ∷ palette)
    → (best : RalColor) × (closest_ral fl hex (ral ∷ palette) ≡ some best)
      × IsFirstNearest fl (distance fl hex) (ral ∷ palette) best
unfolding closest_ral
closest_ral-IsFirstNearest fl o hex ral palette h =
    let nums = All-map (λ x f. o.finite_lem _ f) (ral ∷ palette) h in
    let first : IsFirstNearest fl (distance fl hex) (ral ∷ []) ral = record {
      before = [];
      after = [];
      listed = refl;
      farther = tt;
      no_nearer = tt;
    } in
    let (b, found, nearest) =
      nearest_from_lem fl o (hex_to_oklab fl hex) palette (ral ∷ []) ral (nums.0, tt) nums.1
        first in
    (b, rw (o.infinity_lem _ h.0) found, nearest)
