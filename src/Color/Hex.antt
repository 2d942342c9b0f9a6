-- ===== src/Color/Hex.antt =====
-- `hexToRgb` of lib/color.ts.
use desktopcolors.Common.{
  ℕ, ◌+◌, ◌-◌, ◌*◌, ◌/◌, ◌%◌, ◌^◌, ◌≤◌, ◌<◌, [], ◌∷◌, Option, none, some, ◌&&◌, ◌||◌, ◌≡◌, arith,
  Text, ◌==◌, leb, ltb, if◌then◌else◌, trim_start, drop,
}

-- the value of a hexadecimal digit
unfoldable pub hex_value : ℕ → Option ℕ
hex_value c =
    if leb b'0' c && leb c b'9'
    then some (c - b'0')
    else if leb b'a' c && leb c b'f'
    then some (c - b'a' + 10)
    else if leb b'A' c && leb c b'F'
    then some (c - b'A' + 10)
    else none

-- the digits of `parseInt(s, 16)`: it stops at the first character that is none
unfoldable pub scan_hex : Text → ℕ → ℕ
scan_hex [] n = n
scan_hex (c ∷ s) n = elim (hex_value c) [ none ↦ n | some d ↦ scan_hex s (n * 16 + d) ]

-- the prefix `0x` or `0X` is skipped
unfoldable pub skip_prefix : Text → Text
skip_prefix (a ∷ b ∷ s) = if a == b'0' && (b == b'x' || b == b'X') then s else a ∷ b ∷ s
skip_prefix s = s

-- a sign, a prefix, digits: the value modulo 2 ^ 32
unfoldable pub signed_hex : Text → ℕ
signed_hex [] = 0
signed_hex (c ∷ rest) =
    if c == b'-'
    then (2 ^ 32 - scan_hex (skip_prefix rest) 0 % 2 ^ 32) % 2 ^ 32
    else if c == b'+'
    then scan_hex (skip_prefix rest) 0 % 2 ^ 32
    else scan_hex (skip_prefix (c ∷ rest)) 0 % 2 ^ 32

-- `parseInt(s, 16)` as a 32-bit pattern, which is all that the shifts and masks below read. Without
-- a digit the result is NaN, which the shifts take for 0.
unfoldable pub parse_int16 : Text → ℕ
parse_int16 s = signed_hex (trim_start s)

-- `(n >> 16) & 255`, `(n >> 8) & 255`, `n & 255`
unfoldable pub hex_to_rgb : Text → ℕ × ℕ × ℕ
hex_to_rgb hex = let n = parse_int16 (drop 1 hex) in (n / 2 ^ 16 % 256, n / 2 ^ 8 % 256, n % 256)

-- the functions above, opened together where a test runs them
unfoldable pub run_hex : Unit {0}
unfolding hex_value scan_hex skip_prefix signed_hex parse_int16 hex_to_rgb
run_hex = tt

-- The digit that stands for a value below 16, in lower case, as the content files write it.
unfoldable pub digit : ℕ → ℕ
digit d = if ltb d 10 then b'0' + d else b'a' + (d - 10)

-- `#rrggbb`
abbrev pub rgb_to_hex : ℕ → ℕ → ℕ → Text
rgb_to_hex r g b =
    b'#'
    ∷ digit (r / 16)
    ∷ digit (r % 16)
    ∷ digit (g / 16)
    ∷ digit (g % 16)
    ∷ digit (b / 16)
    ∷ digit (b % 16)
    ∷ []

hex_value-digit : (d : ℕ) → d < 16 → hex_value (digit d) ≡ some d
unfolding hex_value digit
hex_value-digit d h = ground arith

trim_start-digit : (d : ℕ) (s : Text) → d < 16 → trim_start (digit d ∷ s) ≡ digit d ∷ s
unfolding trim_start digit
trim_start-digit d s h = ground arith

skip_prefix-digit : (c d : ℕ) (s : Text) → d < 16 → skip_prefix (c ∷ digit d ∷ s) ≡ c ∷ digit d ∷ s
unfolding skip_prefix digit
skip_prefix-digit c d s h = ground arith

scan_hex-digit :
    (d : ℕ) (s : Text) (n : ℕ) → d < 16 → scan_hex (digit d ∷ s) n ≡ scan_hex s (n * 16 + d)
unfolding scan_hex
scan_hex-digit d s n h = rw (hex_value-digit d h, scan_hex)

digit-ge : (d : ℕ) → b'0' ≤ digit d
unfolding digit
digit-ge d = ground arith

signed_hex-digit :
    (c d : ℕ) (s : Text)
    → d < 16
    → signed_hex (digit c ∷ digit d ∷ s) ≡ scan_hex (digit c ∷ digit d ∷ s) 0 % 2 ^ 32
unfolding signed_hex
signed_hex-digit c d s k = let e = skip_prefix-digit (digit c) d s k in ground (arith, digit-ge c)

-- the value that six digits spell
scan_six :
    (a b c d e f : ℕ)
    → a < 16
    → b < 16
    → c < 16
    → d < 16
    → e < 16
    → f < 16
    → scan_hex (digit a ∷ digit b ∷ digit c ∷ digit d ∷ digit e ∷ digit f ∷ []) 0
      ≡ ((((a * 16 + b) * 16 + c) * 16 + d) * 16 + e) * 16 + f
scan_six a b c d e f ha hb hc hd he hf =
    rw
      (
        scan_hex-digit a _ 0 ha,
        scan_hex-digit b _ _ hb,
        scan_hex-digit c _ _ hc,
        scan_hex-digit d _ _ hd,
        scan_hex-digit e _ _ he,
        scan_hex-digit f _ _ hf,
      )
      (unfold scan_hex in omega arith)

triple {ℓ} :
    {A : Type ℓ} {a b c x y z : A} → a ≡ x → b ≡ y → c ≡ z → ◌≡◌ {A = A × A × A} (a, b, c) (x, y, z)
triple p q r = λ i. (p i, q i, r i)

-- Every color is read back from its lower-case spelling `#rrggbb`.
pub hex_to_rgb-rgb_to_hex :
    (r g b : ℕ) → r < 256 → g < 256 → b < 256 → hex_to_rgb (rgb_to_hex r g b) ≡ (r, g, b)
unfolding hex_to_rgb parse_int16
hex_to_rgb-rgb_to_hex r g b hr hg hb =
    rw
      (
        trim_start-digit (r / 16) _ (omega arith),
        signed_hex-digit (r / 16) (r % 16) _ (omega arith),
        scan_six (r / 16) (r % 16) (g / 16) (g % 16) (b / 16) (b % 16) (omega arith) (omega arith)
            (omega arith) (omega arith) (omega arith) (omega arith),
      )
      (triple (omega arith) (omega arith) (omega arith))
