-- ===== src/Color/Types.antt =====
-- `colorTypes` and `hueFamily` of lib/color.ts.
use mathlib.Core.List.{append-nil}
use desktopcolors.Common.{
  List, [], ◌∷◌, ◌++◌, Bool, true, false, ◌&&◌, ◌||◌, ◌≡◌, refl, arith, Text, if◌then◌else◌, filter,
  filter-append, length, Bool-cases, inl, inr,
}
use desktopcolors.Color.Floats.{Floats, IsOrdered}
use desktopcolors.Color.Spaces.{hex_to_oklch, Oklch}

pub data FamilyKey : Type 0 where
  red orange yellow green teal blue purple pink achromatic : FamilyKey

pub data ColorTypeKey : Type 0 where
  pastel light dark muted neutral vivid neon jewel earth warm cool : ColorTypeKey

-- `if (test) out.push(key)`
unfoldable pub push_if {ℓ} : {A : Type ℓ} → Bool → A → List A → List A
push_if test key out = if test then out ++ key ∷ [] else out

module _ (fl : Floats) where
  open fl use {F, num, dec, lt, le}

  unfoldable pub types_of : Oklch fl → List ColorTypeKey
  types_of o =
      let l = o.l in
      let c = o.c in
      let h = o.h in
      let out = push_if (le (dec 80 2) l && le (dec 3 2) c && le c (dec 10 2)) pastel [] in
      let out = push_if (le (dec 82 2) l) light out in
      let out = push_if (le l (dec 35 2)) dark out in
      let out = push_if (le (dec 25 3) c && le c (dec 9 2)) muted out in
      let out = push_if (lt c (dec 25 3)) neutral out in
      let out = push_if (le (dec 16 2) c) vivid out in
      let out = push_if (le (dec 22 2) c && le (dec 55 2) l) neon out in
      let out = push_if (le (dec 30 2) l && le l (dec 65 2) && le (dec 12 2) c) jewel out in
      let out =
        push_if
          (le (num 40) h
            && lt h (num 130)
            && le (dec 3 2) c
            && le c (dec 11 2)
            && le (dec 25 2) l
            && le l (dec 70 2))
          earth out in
      let out = push_if (le (dec 25 3) c && (lt h (num 130) || le (num 340) h)) warm out in
      push_if (le (dec 25 3) c && le (num 130) h && lt h (num 340)) cool out

  unfoldable pub color_types : Text → List ColorTypeKey
  unfolding types_of
  color_types hex = types_of (hex_to_oklch fl hex)

  unfoldable pub hue_family : F → F → FamilyKey
  hue_family h s =
      if lt s (num 12)
      then achromatic
      else if lt h (num 15) || le (num 345) h
      then red
      else if lt h (num 45)
      then orange
      else if lt h (num 70)
      then yellow
      else if lt h (num 160)
      then green
      else if lt h (num 200)
      then teal
      else if lt h (num 250)
      then blue
      else if lt h (num 290)
      then purple
      else pink

-- the tags of which a color has one: it is achromatic, or it is warm or cool
abbrev pub is_temperature : ColorTypeKey → Bool
is_temperature neutral = true
is_temperature warm = true
is_temperature cool = true
is_temperature _ = false

filter-push_if {ℓ} :
    {A : Type ℓ} (p : A → Bool) (test : Bool) (key : A) (out : List A)
    → filter p (push_if test key out) ≡ push_if (p key && test) key (filter p out)
unfolding push_if
filter-push_if p true key out = elim (Bool-cases (p key)) [
  | inl e ↦ rw (filter-append, e) (unfold push_if in refl)
  | inr e ↦ rw (filter-append, e) (append-nil (filter p out))
]
filter-push_if p false key out = ground arith

module _ (fl : Floats) where
  open fl use {F, num, dec, lt, le}

  temperatures :
      (o : Oklch fl)
      → filter is_temperature (types_of fl o)
        ≡ push_if (le (dec 25 3) o.c && le (num 130) o.h && lt o.h (num 340)) cool (
            push_if
              (le (dec 25 3) o.c && (lt o.h (num 130) || le (num 340) o.h))
              warm
              (push_if (lt o.c (dec 25 3)) neutral []))
  unfolding types_of
  temperatures o = simp filter-push_if (unfold push_if in refl)

  -- Every color whose chroma and hue are numbers gets exactly one of the tags neutral, warm and cool;
  -- so each color gets a tag.
  pub color_types_temperature :
      (l : IsOrdered fl) (hex : Text)
      → fl.is_nan (hex_to_oklch fl hex).c ≡ false
      → fl.is_nan (hex_to_oklch fl hex).h ≡ false
      → length (filter is_temperature (color_types fl hex)) ≡ 1
  unfolding color_types push_if
  color_types_temperature l hex nc nh =
      let o = hex_to_oklch fl hex in
      rw (temperatures o) (
        ground (
          arith,
          l.le_lem (dec 25 3) o.c (l.dec_lem 25 3) nc,
          l.le_lem (num 130) o.h (l.num_lem 130) nh,
          l.le_lem (num 340) o.h (l.num_lem 340) nh,
        ))
