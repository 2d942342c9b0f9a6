-- ===== src/Content/Accepted.antt =====
-- What the other parts can rely on of an entry that the schema accepts.
use desktopcolors.Common.{
  ℕ, ◌+◌, ◌-◌, ◌*◌, ◌/◌, ◌%◌, ◌≤◌, ◌<◌, List, [], ◌∷◌, Option, none, some, Bool, true, false, ◌&&◌,
  ◌≡◌, refl, sym, ap, subst, ◌∙◌, arith, Text, length, filter, all, All, ◌==◌, is_digit, Bool-cases,
  inl, inr, All-map, is_empty,
}
use desktopcolors.Content.Schema.{
  OsInput, is_lower_hex, is_hex, is_os_color, is_os_input, is_os_source, is_os_link, is_http_url,
  is_nonempty, is_slug, is_date, optional, OsSource,
}
use desktopcolors.SourceNote.{source_note_link_errors}
use desktopcolors.Color.Hex.{digit, rgb_to_hex, hex_to_rgb, hex_to_rgb-rgb_to_hex}

and_true : (a : Bool) {b : Bool} → (a && b) ≡ true → (a ≡ true) × (b ≡ true)
and_true true h = (refl, h)
and_true false h = cc h

-- a hexadecimal digit in lower case is the digit of its value
digit_of : (c : ℕ) → is_lower_hex c ≡ true → (d : ℕ) × (d < 16) × (digit d ≡ c)
unfolding is_lower_hex is_digit digit
digit_of c h = elim (Bool-cases (is_digit c)) [
  | inl e ↦ (c - b'0', ground (arith, e), ground (arith, e))
  | inr e ↦ (c - 87, ground (arith, e, h), ground (arith, e, h))
]

uncons : (n : ℕ) (s : Text) → length s ≡ n + 1 → (a : ℕ) × (t : Text) × (s ≡ a ∷ t) × (length t ≡ n)
uncons n [] h = absurd (omega (arith, h))
uncons n (a ∷ t) h = (a, t, refl, omega (arith, h))

empty_of_length : (s : Text) → length s ≡ 0 → s ≡ []
empty_of_length [] h = refl
empty_of_length (a ∷ t) h = absurd (omega (arith, h))

join_digits :
    (a b : ℕ)
    → a < 16
    → b < 16
    → ((a * 16 + b) / 16 ≡ a) × ((a * 16 + b) % 16 ≡ b) × (a * 16 + b < 256)
join_digits a b h k = (omega (arith, h, k), omega (arith, h, k), omega (arith, h, k))

-- six digits spell the color of their bytes
six_digits :
    (a b c d e f : ℕ)
    → a < 16
    → b < 16
    → c < 16
    → d < 16
    → e < 16
    → f < 16
    → rgb_to_hex (a * 16 + b) (c * 16 + d) (e * 16 + f)
      ≡ b'#' ∷ digit a ∷ digit b ∷ digit c ∷ digit d ∷ digit e ∷ digit f ∷ []
six_digits a b c d e f ha hb hc hd he hf =
    let (a1, b1, _) = join_digits a b ha hb in
    let (c1, d1, _) = join_digits c d hc hd in
    let (e1, f1, _) = join_digits e f he hf in
    λ i.
      b'#'
      ∷ digit (a1 i)
      ∷ digit (b1 i)
      ∷ digit (c1 i)
      ∷ digit (d1 i)
      ∷ digit (e1 i)
      ∷ digit (f1 i)
      ∷ []

-- a text of bytes is spelled as it was read
spelled :
    (r g b : ℕ) (hex : Text)
    → r < 256
    → g < 256
    → b < 256
    → rgb_to_hex r g b ≡ hex
    → rgb_to_hex (hex_to_rgb hex).0 (hex_to_rgb hex).1 (hex_to_rgb hex).2 ≡ hex
spelled r g b hex hr hg hb h =
    subst (λ t. rgb_to_hex (hex_to_rgb t).0 (hex_to_rgb t).1 (hex_to_rgb t).2 ≡ t) h
      (ap (λ (x, y, z). rgb_to_hex x y z) (hex_to_rgb-rgb_to_hex r g b hr hg hb))

six_lower :
    (a b c d e f : ℕ)
    → all is_lower_hex (a ∷ b ∷ c ∷ d ∷ e ∷ f ∷ []) ≡ true
    → rgb_to_hex
        (hex_to_rgb (b'#' ∷ a ∷ b ∷ c ∷ d ∷ e ∷ f ∷ [])).0
        (hex_to_rgb (b'#' ∷ a ∷ b ∷ c ∷ d ∷ e ∷ f ∷ [])).1
        (hex_to_rgb (b'#' ∷ a ∷ b ∷ c ∷ d ∷ e ∷ f ∷ [])).2
      ≡ b'#' ∷ a ∷ b ∷ c ∷ d ∷ e ∷ f ∷ []
six_lower a b c d e f h =
    let (ha, h1) = and_true (is_lower_hex a) h in
    let (hb, h2) = and_true (is_lower_hex b) h1 in
    let (hc, h3) = and_true (is_lower_hex c) h2 in
    let (hd, h4) = and_true (is_lower_hex d) h3 in
    let (he, h5) = and_true (is_lower_hex e) h4 in
    let (hf, _) = and_true (is_lower_hex f) h5 in
    let (i, hi, ei) = digit_of a ha in
    let (j, hj, ej) = digit_of b hb in
    let (k, hk, ek) = digit_of c hc in
    let (l, hl, el) = digit_of d hd in
    let (m, hm, em) = digit_of e he in
    let (n, hn, en) = digit_of f hf in
    spelled (i * 16 + j) (k * 16 + l) (m * 16 + n) (b'#' ∷ a ∷ b ∷ c ∷ d ∷ e ∷ f ∷ [])
      (omega (arith, hi, hj)) (omega (arith, hk, hl)) (omega (arith, hm, hn))
      (six_digits i j k l m n hi hj hk hl hm hn
        ∙ (λ t. b'#' ∷ ei t ∷ ej t ∷ ek t ∷ el t ∷ em t ∷ en t ∷ []))

-- the color reads back from the text
pub RoundTrips : Text → Type 0
RoundTrips hex = rgb_to_hex (hex_to_rgb hex).0 (hex_to_rgb hex).1 (hex_to_rgb hex).2 ≡ hex

split_six :
    (s : Text)
    → length s ≡ 6
    → (a : ℕ) × (b : ℕ) × (c : ℕ) × (d : ℕ) × (e : ℕ) × (f : ℕ) × (s ≡ a ∷ b ∷ c ∷ d ∷ e ∷ f ∷ [])
split_six s h =
    let (a, s1, e1, h1) = uncons 5 s h in
    let (b, s2, e2, h2) = uncons 4 s1 h1 in
    let (c, s3, e3, h3) = uncons 3 s2 h2 in
    let (d, s4, e4, h4) = uncons 2 s3 h3 in
    let (e, s5, e5, h5) = uncons 1 s4 h4 in
    let (f, s6, e6, h6) = uncons 0 s5 h5 in
    (
      a,
      b,
      c,
      d,
      e,
      f,
      e1
          ∙ ap (λ t. a ∷ t)
              (e2
                ∙ ap (λ t. b ∷ t)
                    (e3
                      ∙ ap (λ t. c ∷ t)
                          (e4
                            ∙ ap (λ t. d ∷ t)
                                (e5
                                  ∙ ap (λ t. e ∷ t)
                                      (e6 ∙ ap (λ t. f ∷ t) (empty_of_length s6 h6)))))),
    )

is_hex-RoundTrips : (hex : Text) → is_hex hex ≡ true → RoundTrips hex
unfolding is_hex RoundTrips
is_hex-RoundTrips [] h = cc h
is_hex-RoundTrips (x ∷ s) h =
    let (h1, ha) = and_true (x == b'#' && length s == 6) h in
    let (hx, hl) = and_true (x == b'#') h1 in
    let (a, b, c, d, e, f, es) = split_six s (ground (arith, hl)) in
    let ex : x ≡ b'#' = ground (arith, hx) in
    subst (λ t. RoundTrips t) (λ i. sym ex i ∷ sym es i)
      (six_lower a b c d e f (subst (λ t. all is_lower_hex t ≡ true) es ha))

all-All {ℓ} : {A : Type ℓ} (p : A → Bool) (xs : List A) → all p xs ≡ true → All (λ x. p x ≡ true) xs
all-All p [] h = tt
all-All p (x ∷ xs) h = let (a, b) = and_true (p x) h in (a, all-All p xs b)

is_empty-eq {ℓ} : {A : Type ℓ} (xs : List A) → is_empty xs ≡ true → xs ≡ []
is_empty-eq [] h = refl
is_empty-eq (x ∷ xs) h = cc h

is_nonempty-length {ℓ} : {A : Type ℓ} (xs : List A) → is_nonempty xs ≡ true → 1 ≤ length xs
is_nonempty-length [] h = cc h
is_nonempty-length (x ∷ xs) h = omega arith

-- what the source note of an entry is refused for
unfoldable pub note_errors : Option OsSource → List Text
note_errors none = []
note_errors (some s) = source_note_link_errors s.text s.links

is_os_source-note_errors :
    (protocol : Text → Option Text) (o : Option OsSource)
    → optional (is_os_source protocol) o ≡ true
    → note_errors o ≡ []
unfolding note_errors is_os_source
is_os_source-note_errors protocol none h = refl
is_os_source-note_errors protocol (some s) h =
    is_empty-eq _
      (and_true
        (is_nonempty s.text && all (λ (k, u). is_nonempty k && is_http_url protocol u) s.links) h).1

-- In an entry that the schema accepts, every color reads back from its text, there is at least one
-- color, at most one is marked as the default, and the links of the source note have no error.
pub is_os_input_lem :
    (protocol : Text → Option Text) (slug : Option Text) (d : OsInput)
    → is_os_input protocol slug d ≡ true
    → All (λ c. RoundTrips c.hex) d.colors
      × (1 ≤ length d.colors)
      × (length (filter (λ c. c.default) d.colors) ≤ 1)
      × (note_errors d.source ≡ [])
unfolding is_os_input is_os_color
is_os_input_lem protocol slug d h =
    let colors_ok = all (is_os_color protocol) d.colors in
    let before =
      is_nonempty d.name
      && optional is_slug slug
      && is_date d.added
      && is_nonempty d.family
      && optional is_nonempty d.kind
      && optional (is_os_link protocol) d.project
      && all (is_os_link protocol) d.links
      && optional (is_http_url protocol) d.wikipedia in
    let source_ok = optional (is_os_source protocol) d.source in
    let (h1, few) = and_true (before && source_ok && is_nonempty d.colors && colors_ok) h in
    let (h2, colors) = and_true (before && source_ok && is_nonempty d.colors) h1 in
    let (h3, some_color) = and_true (before && source_ok) h2 in
    (
      All-map (λ c k. is_hex-RoundTrips c.hex (and_true (is_hex c.hex) k).0) d.colors
          (all-All (is_os_color protocol) d.colors colors),
      is_nonempty-length d.colors some_color,
      ground (arith, few),
      is_os_source-note_errors protocol d.source (and_true before h3).1,
    )
