-- ===== src/Widgets/Infobox.antt =====
-- islands/ColorInfobox.tsx: what the box of a color says, and the values that it copies.
use desktopcolors.Common.{
  ℕ, ◌+◌, ◌-◌, ◌*◌, ◌%◌, ◌/◌, ◌^◌, List, [], ◌∷◌, ◌++◌, Option, none, some, ◌&&◌, ◌≡◌, refl, ap,
  sym, ◌∙◌, arith, Text, codes, show, is_space, trim_start, if◌then◌else◌, leb, ◌==◌, length,
  filter, drop,
}
use desktopcolors.Color.Floats.{Floats}
use desktopcolors.Color.Hex.{hex_value, scan_hex, skip_prefix, signed_hex, parse_int16, hex_to_rgb}
use desktopcolors.Color.Spaces.{rgb_to_cmyk}
use desktopcolors.ColorCatalog.Platforms.{Platform}

-- `toUpperCase` of one code unit: the letters of ASCII, of which a hex is written
unfoldable pub upper_unit : ℕ → ℕ
upper_unit c = if leb b'a' c && leb c b'z' then c - 32 else c

-- `s.toUpperCase()`
unfoldable pub to_upper_case : Text → Text
unfolding upper_unit
to_upper_case [] = []
to_upper_case (c ∷ s) = upper_unit c ∷ to_upper_case s

-- `1 OS`, `n OSes`
unfoldable pub count_label : List Platform → Text
count_label platforms =
    if length platforms == 1 then codes "1 OS" else show (length platforms) ++ codes " OSes"

unfoldable pub default_label : List Platform → Text
default_label platforms =
    let d = length (filter (λ p. p.is_default) platforms) in
    if d == 0
    then codes "no default use"
    else if d == 1
    then codes "1 default"
    else show d ++ codes " defaults"

pub record Row : Type 0 where
  pub key : Text
  pub label : Text
  pub value : Text
  pub to_copy : Text

-- a list with commas
abbrev three : Text → Text → Text → Text
three a b c = a ++ (codes ", " ++ (b ++ (codes ", " ++ c)))

abbrev percents : Text → Text
percents a = a ++ codes "%"

abbrev call : Text → Text → Text
call name inner = name ++ (codes "(" ++ (inner ++ codes ")"))

module _ (fl : Floats) where
  open fl use {F, round}

  pub record InfoboxColor : Type 0 where
    pub hex : Text
    pub name : Text
    pub on_color : Text
    pub h : F
    pub s : F
    pub l : F
    pub primary_slug : Text

  unfoldable pub rows : InfoboxColor → List Row
  unfolding to_upper_case
  rows color =
      let (r, g, b) = hex_to_rgb color.hex in
      let (cy, mg, ye, k) = rgb_to_cmyk fl r g b in
      let hh = fl.show (round color.h) in
      let ss = fl.show (round color.s) in
      let ll = fl.show (round color.l) in
      let rgb = three (show r) (show g) (show b) in
      record {
        key = codes "hex";
        label = codes "HEX";
        value = to_upper_case color.hex;
        to_copy = to_upper_case color.hex;
      }
      ∷ record {
        key = codes "rgb";
        label = codes "RGB";
        value = rgb;
        to_copy = call (codes "rgb") rgb;
      }
      ∷ record {
        key = codes "hsl";
        label = codes "HSL";
        value = three (hh ++ codes "°") (percents ss) (percents ll);
        to_copy = call (codes "hsl") (three hh (percents ss) (percents ll));
      }
      ∷ record {
        key = codes "cmyk";
        label = codes "CMYK";
        value = three (fl.show cy) (fl.show mg) (fl.show ye ++ (codes ", " ++ fl.show k));
        to_copy = call (codes "cmyk") (
            three (percents (fl.show cy)) (percents (fl.show mg))
              (percents (fl.show ye) ++ (codes ", " ++ percents (fl.show k))));
      }
      ∷ []

hex_value-upper_unit : (c : ℕ) → hex_value (upper_unit c) ≡ hex_value c
unfolding hex_value upper_unit
hex_value-upper_unit c = ground arith

-- a scan by the value of its first character
abbrev scan_on : Option ℕ → Text → ℕ → ℕ
scan_on none s n = n
scan_on (some d) s n = scan_hex s (n * 16 + d)

scanned_by :
    (c : ℕ) (s : Text) (n : ℕ) (o : Option ℕ) → hex_value c ≡ o → scan_hex (c ∷ s) n ≡ scan_on o s n
unfolding scan_hex
scanned_by c s n none e = rw (e, scan_hex) refl
scanned_by c s n (some d) e = rw (e, scan_hex) refl

scan_on-eq :
    (s t : Text) (n : ℕ) (o : Option ℕ)
    → ((m : ℕ) → scan_hex s m ≡ scan_hex t m)
    → scan_on o s n ≡ scan_on o t n
scan_on-eq s t n none h = refl
scan_on-eq s t n (some d) h = h (n * 16 + d)

scan_hex-to_upper_case : (s : Text) (n : ℕ) → scan_hex (to_upper_case s) n ≡ scan_hex s n
unfolding scan_hex to_upper_case
scan_hex-to_upper_case [] n = refl
scan_hex-to_upper_case (c ∷ s) n =
    scanned_by (upper_unit c) (to_upper_case s) n _ (hex_value-upper_unit c)
    ∙ scan_on-eq (to_upper_case s) s n (hex_value c) (λ m. scan_hex-to_upper_case s m)
    ∙ sym (scanned_by c s n (hex_value c) refl)

is_space-upper_unit : (c : ℕ) → is_space (upper_unit c) ≡ is_space c
unfolding is_space upper_unit
is_space-upper_unit c = ground arith

trim_start-to_upper_case : (s : Text) → trim_start (to_upper_case s) ≡ to_upper_case (trim_start s)
unfolding trim_start to_upper_case
trim_start-to_upper_case [] = refl
trim_start-to_upper_case (c ∷ s) = ground (arith, is_space-upper_unit c, trim_start-to_upper_case s)

skip_prefix-to_upper_case :
    (s : Text) → skip_prefix (to_upper_case s) ≡ to_upper_case (skip_prefix s)
unfolding skip_prefix to_upper_case upper_unit
skip_prefix-to_upper_case [] = refl
skip_prefix-to_upper_case (a ∷ []) = refl
skip_prefix-to_upper_case (a ∷ b ∷ s) = ground arith

scanned : (s : Text) → scan_hex (skip_prefix (to_upper_case s)) 0 ≡ scan_hex (skip_prefix s) 0
scanned s =
    ap (λ t. scan_hex t 0) (skip_prefix-to_upper_case s) ∙ scan_hex-to_upper_case (skip_prefix s) 0

signs : (c : ℕ) → ((upper_unit c == b'-') ≡ (c == b'-')) × ((upper_unit c == b'+') ≡ (c == b'+'))
unfolding upper_unit
signs c = ground arith

signed_hex-to_upper_case : (s : Text) → signed_hex (to_upper_case s) ≡ signed_hex s
unfolding signed_hex to_upper_case
signed_hex-to_upper_case [] = refl
signed_hex-to_upper_case (c ∷ s) = ground (arith, signs c, scanned s, scanned (c ∷ s))

drop-to_upper_case : (s : Text) → drop 1 (to_upper_case s) ≡ to_upper_case (drop 1 s)
unfolding to_upper_case
drop-to_upper_case [] = refl
drop-to_upper_case (c ∷ s) = refl

-- The hex that the box copies is the color that it shows, whatever the case in which it was written.
pub hex_to_rgb-to_upper_case : (hex : Text) → hex_to_rgb (to_upper_case hex) ≡ hex_to_rgb hex
unfolding hex_to_rgb parse_int16
hex_to_rgb-to_upper_case hex =
    ap (λ n. (n / 2 ^ 16 % 256, n / 2 ^ 8 % 256, n % 256))
      (ap (λ t. signed_hex (trim_start t)) (drop-to_upper_case hex)
        ∙ ap signed_hex (trim_start-to_upper_case (drop 1 hex))
        ∙ signed_hex-to_upper_case (trim_start (drop 1 hex)))
