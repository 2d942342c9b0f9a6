-- ===== src/ColorCatalog/Ranking.antt =====
-- What the ranking of the color explorer lists.
use mathlib.Core.List.{Perm}
use desktopcolors.Common.{
  ℕ, ◌+◌, List, [], ◌∷◌, map, Option, ◌≡◌, refl, sym, subst, filter, sort, sort-perm, IsSorted, All,
}
use desktopcolors.Color.Floats.{Floats, IsOrdered}
use desktopcolors.ColorCatalog.Order.{HasNumbers, sort-before}
use desktopcolors.Color.Types.{FamilyKey}
use desktopcolors.ColorCatalog.Defs.{
  ColorEntry, in_family, Sort, before, Ranked, max_score, rank_from, rank_colors,
}

module _ (fl : Floats) where
  -- the ranks count up from `i + 1`
  abbrev pub CountsUp : ℕ → List (Ranked fl) → Type 0
  CountsUp i [] = Unit
  CountsUp i (r ∷ rs) = (r.rank ≡ i + 1) × CountsUp (i + 1) rs

  pub rank_from-CountsUp :
      (top i : ℕ) (cs : List (ColorEntry fl))
      → (map (λ r. r.color) (rank_from fl top i cs) ≡ cs) × CountsUp i (rank_from fl top i cs)
  unfolding rank_from
  rank_from-CountsUp top i [] = (refl, tt)
  rank_from-CountsUp top i (c ∷ cs) =
      let (same, up) = rank_from-CountsUp top (i + 1) cs in (λ j. c ∷ same j, (refl, up))

  -- Where the hues and lightnesses are numbers, the ranking lists the colors of the family, or all, each
  -- once and in the order that is chosen, and its ranks count up from 1.
  pub rank_colors_lem :
      (o : IsOrdered fl) (colors : List (ColorEntry fl)) (family : Option FamilyKey) (by : Sort)
      → All HasNumbers colors
      → Perm
          (map (λ r. r.color) (rank_colors fl colors family by))
          (filter (λ c. in_family family c.family) colors)
        × IsSorted (before fl by) (map (λ r. r.color) (rank_colors fl colors family by))
        × CountsUp 0 (rank_colors fl colors family by)
  unfolding rank_colors
  rank_colors_lem o colors family by h =
      let of_family = λ (c : ColorEntry fl). in_family family c.family in
      let kept = filter of_family colors in
      let (same, up) = rank_from-CountsUp (max_score fl kept 0) 0 (sort (before fl by) kept) in
      (
        subst (λ l. Perm l kept) (sym same) (sort-perm (before fl by) kept),
        subst (IsSorted (before fl by)) (sym same) (sort-before fl o by of_family colors h),
        up,
      )
