-- ===== src/Widgets/Timeline.antt =====
-- islands/KnownUsesTimeline.tsx: the systems that ship a color, on a line of years. A color is used by the
-- system of its page, so there is a first use. The markup is in TimelineView.
use desktopcolors.Common.{
  ℕ, ◌-◌, ◌*◌, ◌≤◌, List, [], ◌∷◌, ◌++◌, Option, none, some, Bool, true, false, not, ◌≡◌, arith,
  Text, codes, text_eq, show, if◌then◌else◌, ltb, leb, ◌==◌, length, last_or, All, All-map,
  IsSorted,
}
use desktopcolors.ColorCatalog.Platforms.{Platform}

pub record Hover : Type 0 where
  pub year : ℕ
  pub idx : Option ℕ

pub record Timeline : Type 0 where
  pub expanded : Bool
  pub hover : Option Hover

unfoldable pub enter_tick : Platform → Timeline → Timeline
enter_tick u st = record st { hover = some (record { year = u.year; idx = none }) }

unfoldable pub enter_row : Platform → ℕ → Timeline → Timeline
enter_row u i st = record st { hover = some (record { year = u.year; idx = some i }) }

unfoldable pub leave : Timeline → Timeline
leave st = record st { hover = none }

unfoldable pub toggle_palettes : Timeline → Timeline
toggle_palettes st = record st { expanded = not st.expanded; hover = none }

unfoldable pub is_current : Text → Platform → Bool
is_current current_slug u = text_eq u.slug current_slug

abbrev hovers_year : Option Hover → ℕ → Bool
hovers_year none y = false
hovers_year (some h) y = h.year == y

unfoldable pub tick_active : Timeline → Platform → Bool
tick_active st u = hovers_year st.hover u.year

abbrev same_row : Option ℕ → ℕ → Bool → Bool
same_row none i year_is = year_is
same_row (some j) i year_is = j == i

abbrev hovers_row : Option Hover → Platform → ℕ → Bool
hovers_row none u i = false
hovers_row (some h) u i = same_row h.idx i (h.year == u.year)

unfoldable pub row_active : Timeline → Platform → ℕ → Bool
row_active st u i = hovers_row st.hover u i

-- the uses `first ∷ rest`, in the order of `uses`
module _ (first : Platform) (rest : List Platform) where
  abbrev pub last_use : Platform
  last_use = last_or first rest

  abbrev pub min_y : ℕ
  min_y = first.year

  unfoldable pub max_y : ℕ
  max_y = last_use.year

  -- `Math.max(1, maxY - minY)`, also where the difference is negative
  unfoldable pub span : ℕ
  unfolding max_y
  span = if ltb 1 (max_y - min_y) then max_y - min_y else 1

  unfoldable pub count_label : Text
  unfolding max_y
  count_label =
      if length (first ∷ rest) == 1
      then codes "1 palette"
      else show (length (first ∷ rest))
        ++ (codes " palettes · " ++ (show min_y ++ (codes "–" ++ show max_y)))

  unfoldable pub tally_rest : Text
  unfolding max_y
  tally_rest =
      if length (first ∷ rest) - 1 == 1
      then codes "Also in 1 other palette."
      else codes "Recurs across "
        ++ (show (length (first ∷ rest))
            ++ (codes " palettes through "
                ++ (last_use.name ++ (codes ", " ++ (show max_y ++ codes ".")))))

  -- `left` of a tick, as percents times `span`; the years are in order, so none is before the first
  unfoldable pub left_of : Platform → ℕ
  left_of u = (u.year - min_y) * 100

  unfoldable pub tick_size : Timeline → Text → Platform → ℕ
  unfolding tick_active is_current
  tick_size st current_slug u =
      if tick_active st u then 13 else if is_current current_slug u then 11 else 8

  abbrev pub year_before : Platform → Platform → Bool
  year_before a b = ltb a.year b.year

  -- the last of a list in order is no earlier than any of it
  last_year :
      (a : Platform) (us : List Platform)
      → All (λ y. year_before y a ≡ false) us
      → IsSorted year_before us
      → All (λ u. u.year ≤ (last_or a us).year) (a ∷ us)
  last_year a [] h s = (omega arith, tt)
  last_year a (u ∷ us) h s =
      let later = last_year u us s.0 s.1 in
      let le : u.year ≤ (last_or u us).year = later.0 in
      let before : ltb u.year a.year ≡ false = h.0 in (ground (arith, le, before), later)

  -- Where the uses are in the order of their years, every tick stands between the two ends of the line, the
  -- first at its left end, and the last at its right end unless all are of one year; and a later year
  -- stands no further left.
  pub left_of_bounds :
      IsSorted year_before (first ∷ rest)
      → All (λ u. left_of u ≤ 100 * span) (first ∷ rest)
        × (left_of first ≡ 0)
        × (left_of last_use ≡ (if ltb min_y max_y then 100 * span else 0))
        × ((u v : Platform) → leb u.year v.year ≡ true → leb (left_of u) (left_of v) ≡ true)
  unfolding left_of span max_y
  left_of_bounds s = (
    All-map (λ u h. ground arith) (first ∷ rest) (last_year first rest s.0 s.1),
    omega arith,
    ground arith,
    λ u v h. ground arith,
  )
