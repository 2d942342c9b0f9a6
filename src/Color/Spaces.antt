-- ===== src/Color/Spaces.antt =====
-- The color spaces of lib/color.ts, operation by operation over the numbers of `Color.Floats`.
use desktopcolors.Common.{ℕ, List, [], ◌∷◌, Option, some, Text, codes, if◌then◌else◌, get_elem?}
use desktopcolors.Color.Floats.{Floats}
use desktopcolors.Color.Hex.{hex_to_rgb}

-- The two inks the preview draws on the wallpaper.
abbrev pub ink_dark : Text
ink_dark = codes "#1c1917"

abbrev pub ink_light : Text
ink_light = codes "#ffffff"

pub record RalColor : Type 0 where
  pub code : Text
  pub name : Text
  pub hex : Text

module _ (fl : Floats) where
  open fl use {
    F, num, dec, add, sub, mul, div, pow, sqrt, cbrt, atan2, pi, infinity, round, lt, le, eq,
  }

  -- `Math.max(a, b)` and `Math.min(a, b)`
  abbrev pub max : F → F → F
  max a b = if lt a b then b else a

  abbrev pub min : F → F → F
  min a b = if lt b a then b else a

  -- the hue sector before the division by 6; `d` is `max - min`
  unfoldable pub hue_sector : F → F → F → F → F → F
  hue_sector rr gg bb top d =
      if eq top rr
      then add (div (sub gg bb) d) (if lt gg bb then num 6 else num 0)
      else if eq top gg
      then add (div (sub bb rr) d) (num 2)
      else add (div (sub rr gg) d) (num 4)

  unfoldable pub rgb_to_hsl : ℕ → ℕ → ℕ → F × F × F
  unfolding hue_sector
  rgb_to_hsl r g b =
      let rr = div (num r) (num 255) in
      let gg = div (num g) (num 255) in
      let bb = div (num b) (num 255) in
      let top = max (max rr gg) bb in
      let low = min (min rr gg) bb in
      let l = div (add top low) (num 2) in
      let d = sub top low in
      let s =
        if eq top low
        then num 0
        else if lt (dec 5 1) l
        then div d (sub (sub (num 2) top) low)
        else div d (add top low) in
      let h = if eq top low then num 0 else div (hue_sector rr gg bb top d) (num 6) in
      (round (mul h (num 360)), round (mul s (num 100)), round (mul l (num 100)))

  unfoldable pub hex_to_hsl : Text → F × F × F
  unfolding rgb_to_hsl
  hex_to_hsl hex = let (r, g, b) = hex_to_rgb hex in rgb_to_hsl r g b

  unfoldable pub rgb_to_cmyk : ℕ → ℕ → ℕ → F × F × F × F
  rgb_to_cmyk r g b =
      let rr = div (num r) (num 255) in
      let gg = div (num g) (num 255) in
      let bb = div (num b) (num 255) in
      let k = sub (num 1) (max (max rr gg) bb) in
      let ink = λ (x : F). round (mul (div (sub (sub (num 1) x) k) (sub (num 1) k)) (num 100)) in
      if eq k (num 1)
      then (num 0, num 0, num 0, num 100)
      else (ink rr, ink gg, ink bb, round (mul k (num 100)))

  unfoldable pub hex_to_cmyk : Text → F × F × F × F
  unfolding rgb_to_cmyk
  hex_to_cmyk hex = let (r, g, b) = hex_to_rgb hex in rgb_to_cmyk r g b

  unfoldable pub srgb_to_linear : ℕ → F
  srgb_to_linear c =
      let x = div (num c) (num 255) in
      if le x (dec 4045 5)
      then div x (dec 1292 2)
      else pow (div (add x (dec 55 3)) (dec 1055 3)) (dec 24 1)

  -- a sum of three products
  abbrev pub dot : F → F → F → F → F → F → F
  dot a x b y c z = add (add (mul a x) (mul b y)) (mul c z)

  unfoldable pub relative_luminance : Text → F
  unfolding srgb_to_linear
  relative_luminance hex =
      let (r, g, b) = hex_to_rgb hex in
      dot (dec 2126 4) (srgb_to_linear r) (dec 7152 4) (srgb_to_linear g) (dec 722 4)
        (srgb_to_linear b)

  unfoldable pub contrast_ratio : F → F → F
  contrast_ratio a b = div (add (max a b) (dec 5 2)) (add (min a b) (dec 5 2))

  unfoldable pub on_color : Text → Text
  on_color hex =
      let l = relative_luminance hex in
      if le (contrast_ratio l (num 1)) (contrast_ratio l (relative_luminance ink_dark))
      then ink_dark
      else ink_light

  unfoldable pub contrast : Text → Text → F
  contrast a b = contrast_ratio (relative_luminance a) (relative_luminance b)

  unfoldable pub rgb_to_oklab : ℕ → ℕ → ℕ → F × F × F
  unfolding srgb_to_linear
  rgb_to_oklab r8 g8 b8 =
      let r = srgb_to_linear r8 in
      let g = srgb_to_linear g8 in
      let b = srgb_to_linear b8 in
      let l = cbrt (dot (dec 4122214708 10) r (dec 5363325363 10) g (dec 514459929 10) b) in
      let m = cbrt (dot (dec 2119034982 10) r (dec 6806995451 10) g (dec 1073969566 10) b) in
      let s = cbrt (dot (dec 883024619 10) r (dec 2817188376 10) g (dec 6299787005 10) b) in
      (
        sub (add (mul (dec 2104542553 10) l) (mul (dec 7936177850 10) m)) (mul (dec 40720468 10) s),
        add (sub (mul (dec 19779984951 10) l) (mul (dec 24285922050 10) m))
            (mul (dec 4505937099 10) s),
        sub (add (mul (dec 259040371 10) l) (mul (dec 7827717662 10) m))
            (mul (dec 8086757660 10) s),
      )

  unfoldable pub hex_to_oklab : Text → F × F × F
  unfolding rgb_to_oklab
  hex_to_oklab hex = let (r, g, b) = hex_to_rgb hex in rgb_to_oklab r g b

  -- `(x - y) ** 2`
  abbrev pub squared : F → F → F
  squared x y = pow (sub x y) (num 2)

  unfoldable pub oklab_distance : F × F × F → F × F × F → F
  oklab_distance a b = sqrt (add (add (squared a.0 b.0) (squared a.1 b.1)) (squared a.2 b.2))

  -- the hue angle in degrees; a negative one is turned once
  abbrev pub degrees : F → F → F
  degrees b a =
      let h = div (mul (atan2 b a) (num 180)) pi in if lt h (num 0) then add h (num 360) else h

  pub record Oklch : Type 0 where
    pub l : F
    pub c : F
    pub h : F

  unfoldable pub hex_to_oklch : Text → Oklch
  unfolding hex_to_oklab
  hex_to_oklch hex =
      let (l, a, b) = hex_to_oklab hex in
      record { l = l; c = sqrt (add (mul a a) (mul b b)); h = degrees b a }

  -- sRGB to CIELAB (D65)
  unfoldable pub rgb_to_lab : ℕ → ℕ → ℕ → F × F × F
  unfolding srgb_to_linear
  rgb_to_lab r8 g8 b8 =
      let r = srgb_to_linear r8 in
      let g = srgb_to_linear g8 in
      let b = srgb_to_linear b8 in
      let x = div (dot (dec 4124564 7) r (dec 3575761 7) g (dec 1804375 7) b) (dec 95047 5) in
      let y = div (dot (dec 2126729 7) r (dec 7151522 7) g (dec 721750 7) b) (num 1) in
      let z = div (dot (dec 193339 7) r (dec 1191920 7) g (dec 9503041 7) b) (dec 108883 5) in
      let f = λ (t : F).
        if lt (dec 8856 6) t then cbrt t else add (mul (dec 7787 3) t) (div (num 16) (num 116)) in
      (
        sub (mul (num 116) (f y)) (num 16),
        mul (num 500) (sub (f x) (f y)),
        mul (num 200) (sub (f y) (f z)),
      )

  unfoldable pub lab_to_lch : F → F → F → F × F × F
  lab_to_lch l a b = (l, sqrt (add (mul a a) (mul b b)), degrees b a)

  -- the loop of `closestRal`: the first color of the least distance so far, and that distance
  unfoldable pub nearest_from : F × F × F → List RalColor → F → Option RalColor → Option RalColor
  nearest_from target [] best_d best = best
  nearest_from target (ral ∷ palette) best_d best =
      let d = oklab_distance target (hex_to_oklab ral.hex) in
      let closer = nearest_from target palette d (some ral) in
      let keep = nearest_from target palette best_d best in if lt d best_d then closer else keep

  -- `undefined` for an empty palette
  unfoldable pub closest_ral : Text → List RalColor → Option RalColor
  unfolding nearest_from
  closest_ral hex palette = nearest_from (hex_to_oklab hex) palette infinity (get_elem? palette 0)
