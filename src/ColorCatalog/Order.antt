-- ===== src/ColorCatalog/Order.antt =====
-- The comparators of lib/colorCatalog.ts order the colors.
use desktopcolors.Common.{
  List, Bool, true, false, ◌≡◌, arith, filter, sort, All, All-filter_of, IsSorted, IsWeakOrder,
  sort-IsSorted,
}
use desktopcolors.Color.Floats.{Floats, IsOrdered}
use desktopcolors.ColorCatalog.Defs.{ColorEntry, Sort, spectrum, pop, before}

-- the hue and the lightness are numbers
abbrev pub HasNumbers : {fl : Floats} → ColorEntry fl → Type 0
HasNumbers {fl = fl} c = (fl.is_nan c.h ≡ false) × (fl.is_nan c.l ≡ false)

module _ (fl : Floats) (o : IsOrdered fl) where
  spectrum_asymm :
      (a b : ColorEntry fl) → before fl spectrum a b ≡ true → before fl spectrum b a ≡ false
  spectrum_asymm a b h = ground (
    arith,
    o.asymm a.h b.h,
    o.asymm a.l b.l,
    o.eq_sym a.h b.h,
    o.eq_not_lt a.h b.h,
    o.eq_not_lt b.h a.h,
  )

  spectrum_neg_trans :
      (a b c : ColorEntry fl)
      → HasNumbers b
      → before fl spectrum a b ≡ false
      → before fl spectrum b c ≡ false
      → before fl spectrum a c ≡ false
  spectrum_neg_trans a b c p h k = ground (
    arith,
    o.neg_trans a.h b.h c.h p.0,
    o.neg_trans b.h c.h a.h,
    o.neg_trans c.h a.h b.h,
    o.eq_sym a.h c.h,
    o.eq_not_lt a.h c.h,
    o.eq_not_lt c.h a.h,
    o.eq_number a.h c.h,
    o.eq_number c.h a.h,
    o.eq_of_not_lt a.h b.h,
    o.eq_of_not_lt b.h c.h,
    o.neg_trans a.l b.l c.l p.1,
  )

  pop_asymm : (a b : ColorEntry fl) → before fl pop a b ≡ true → before fl pop b a ≡ false
  pop_asymm a b h = ground (arith, o.asymm a.h b.h)

  pop_neg_trans :
      (a b c : ColorEntry fl)
      → HasNumbers b
      → before fl pop a b ≡ false
      → before fl pop b c ≡ false
      → before fl pop a c ≡ false
  pop_neg_trans a b c p h k = ground (arith, o.neg_trans a.h b.h c.h p.0)

  before-IsWeakOrder : (by : Sort) → IsWeakOrder HasNumbers (before fl by)
  before-IsWeakOrder spectrum = record { asymm = spectrum_asymm; neg_trans = spectrum_neg_trans }
  before-IsWeakOrder pop = record { asymm = pop_asymm; neg_trans = pop_neg_trans }

  -- what a band or the ranking lists is sorted
  pub sort-before :
      (by : Sort) (p : ColorEntry fl → Bool) (colors : List (ColorEntry fl))
      → All HasNumbers colors
      → IsSorted (before fl by) (sort (before fl by) (filter p colors))
  sort-before by p colors h =
      sort-IsSorted HasNumbers (before fl by) (before-IsWeakOrder by) (filter p colors)
        (All-filter_of HasNumbers p colors h)
