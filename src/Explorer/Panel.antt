-- ===== src/Explorer/Panel.antt =====
-- Where islands/Colors.tsx opens the box of a color within its band: behind the row of swatches that the
-- color stands in. Widths are whole pixels.
use native.Mathlib.Nat.{div-mul-le_self, lt-div-mul-add, div-eq_of_lt-le, mod-lt, mul-mod_left}
use desktopcolors.Common.{
  ℕ, zero, suc, ◌+◌, ◌-◌, ◌*◌, ◌/◌, ◌%◌, ◌≤◌, ◌<◌, List, [], ◌∷◌, ◌++◌, Option, none, some, ◌≡◌,
  ◌⊎◌, inl, inr, refl, ap, ◌∙◌, arith, Text, text_eq, if◌then◌else◌, length, take, drop,
  take-append-drop, ltb, Bool-cases,
}
use desktopcolors.Color.Floats.{Floats}
use desktopcolors.ColorCatalog.Defs.{ColorEntry}
use desktopcolors.Page.Defs.{find_index}

-- `EXP_COLW` and `EXP_GAP`
abbrev pub exp_colw : ℕ
exp_colw = 116

abbrev pub exp_gap : ℕ
exp_gap = 12

-- `Math.max(1, Math.floor((bandWidth + EXP_GAP) / (EXP_COLW + EXP_GAP)))`
unfoldable pub cols : ℕ → ℕ
cols band_width =
    let fitting = (band_width + exp_gap) / (exp_colw + exp_gap) in
    if ltb 1 fitting then fitting else 1

-- the last place of the row that `idx` is in, in a band of `n` colors
unfoldable pub row_end : ℕ → ℕ → ℕ → ℕ
row_end columns idx n =
    let full = (idx / columns + 1) * columns - 1 in if ltb (n - 1) full then n - 1 else full

-- the caret points at the middle of the swatch
unfoldable pub caret_left : ℕ → ℕ → ℕ
caret_left columns idx = idx % columns * (exp_colw + exp_gap) + exp_colw / 2

module _ (fl : Floats) where
  -- `exp ? b.colors.findIndex((c) => c.hex === exp) : -1`, with `none` for -1
  unfoldable pub panel_index : Option Text → List (ColorEntry fl) → Option ℕ
  panel_index none colors = none
  panel_index (some []) colors = none
  panel_index (some (h ∷ t)) colors = find_index (λ c. text_eq c.hex (h ∷ t)) colors

  -- the swatches before the box, and those behind it
  unfoldable pub head_colors : ℕ → Option ℕ → List (ColorEntry fl) → List (ColorEntry fl)
  unfolding cols row_end
  head_colors band_width none colors = colors
  head_colors band_width (some idx) colors =
      take (row_end (cols band_width) idx (length colors) + 1) colors

  unfoldable pub tail_colors : ℕ → Option ℕ → List (ColorEntry fl) → List (ColorEntry fl)
  unfolding cols row_end
  tail_colors band_width none colors = []
  tail_colors band_width (some idx) colors =
      drop (row_end (cols band_width) idx (length colors) + 1) colors

length-take {ℓ} : {A : Type ℓ} (n : ℕ) (xs : List A) → n ≤ length xs → length (take n xs) ≡ n
length-take zero xs h = refl
length-take (suc n) [] h = absurd (omega (arith, h))
length-take (suc n) (x ∷ xs) h = ap suc (length-take n xs (omega (arith, h)))

cols-pos : (band_width : ℕ) → 0 < cols band_width
unfolding cols
cols-pos band_width = ground arith

cols_fit :
    (band_width : ℕ)
    → exp_colw ≤ band_width
    → cols band_width * (exp_colw + exp_gap) ≤ band_width + exp_gap
unfolding cols
cols_fit band_width h = ground (arith, div-mul-le_self (band_width + 12) 128)

-- the row's end, with the start of the row and of the next
row_end_lem :
    (n idx size : ℕ)
    → 0 < n
    → idx < size
    → (idx ≤ row_end n idx size)
      × (row_end n idx size < size)
      × (row_end n idx size / n ≡ idx / n)
      × ((row_end n idx size + 1 ≡ size) ⊎ ((row_end n idx size + 1) % n ≡ 0))
unfolding row_end
row_end_lem n idx size pos inside =
    let q = idx / n in
    let low : q * n ≤ idx = div-mul-le_self idx n in
    let high : idx < q * n + n = lt-div-mul-add pos in
    let next : (q + 1) * n ≡ q * n + n = grind arith in
    elim (Bool-cases (ltb (size - 1) ((q + 1) * n - 1))) [
      | inl e ↦
          let below : size - 1 < (q + 1) * n - 1 = ground (arith, e) in
          rw (e, row_end)
            (
              omega (arith, inside),
              omega (arith, inside),
              div-eq_of_lt-le n (omega (arith, low, inside)) (omega (arith, below)),
              inl (omega (arith, inside)),
            )
      | inr e ↦
          let reached : (q + 1) * n - 1 ≤ size - 1 = ground (arith, e) in
          rw (e, row_end)
            (
              omega (arith, high, next),
              omega (arith, reached, inside),
              div-eq_of_lt-le n (omega (arith, low, high, next)) (omega (arith, high, next)),
              inr (
                  ap (λ k. k % n)
                    (let back : (q + 1) * n - 1 + 1 ≡ (q + 1) * n = omega (arith, high, next) in
                      back)
                  ∙ mul-mod_left (q + 1) n),
            )
    ]

caret_fits :
    (band_width idx : ℕ)
    → exp_colw ≤ band_width
    → caret_left (cols band_width) idx + exp_colw / 2 ≤ band_width
unfolding caret_left
caret_fits band_width idx h =
    let fit = cols_fit band_width h in
    let inside : idx % cols band_width < cols band_width = mod-lt idx (cols-pos band_width) in
    omega (arith, fit, inside)

module _ (fl : Floats) where
  -- Where a band's color is open, the box stands behind the color's own row, which is full unless the band
  -- ends there; the swatches before and behind the box are those of the band, none lost and none twice;
  -- and the swatch that the caret points at lies within a band as wide as a swatch at least.
  pub panel_lem :
      (band_width idx : ℕ) (colors : List (ColorEntry fl))
      → idx < length colors
      → exp_colw ≤ band_width
      → let n = cols band_width in
        let last = row_end n idx (length colors) in
        (head_colors fl band_width (some idx) colors ++ tail_colors fl band_width (some idx) colors
          ≡ colors)
        × (length (head_colors fl band_width (some idx) colors) ≡ last + 1)
        × (idx ≤ last)
        × (last / n ≡ idx / n)
        × ((last + 1 ≡ length colors) ⊎ ((last + 1) % n ≡ 0))
        × (caret_left n idx + exp_colw / 2 ≤ band_width)
  unfolding head_colors tail_colors
  panel_lem band_width idx colors inside wide =
      let n = cols band_width in
      let (le, lt, same_row, full) =
        row_end_lem n idx (length colors) (cols-pos band_width) inside in
      (
        take-append-drop (row_end n idx (length colors) + 1) colors,
        length-take (row_end n idx (length colors) + 1) colors (omega (arith, lt)),
        le,
        same_row,
        full,
        caret_fits band_width idx wide,
      )
