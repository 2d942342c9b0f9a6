-- ===== src/Track/Laws.antt =====
-- The body of a beacon tells which event it is.
use desktopcolors.Common.{
  ℕ, ◌+◌, ◌-◌, ◌*◌, ◌/◌, ◌%◌, ◌<◌, ◌≤◌, codes, [], ◌∷◌, ◌++◌, true, ◌≡◌, inl, inr, refl, sym, ap,
  ◌∙◌, arith, Text, if◌then◌else◌, ◌==◌, ltb, length, All, Bool-cases, drop, head_or,
}
use mathlib.Core.List.{append_assoc}
use desktopcolors.Color.Hex.{digit}
use desktopcolors.Track.Defs.{
  TrackEvent, copy, download, osview, escape_unit, escape, quote, stringify, Browser, Request,
  beacon, fetched, track,
}

-- the value of a digit, and of the four behind `\\u`
value : ℕ → ℕ
value d = if ltb d b'a' then d - b'0' else d - 87

value-digit : (d : ℕ) → d < 16 → value (digit d) ≡ d
unfolding value digit
value-digit d h = ground arith

code_point : Text → ℕ
unfolding value
code_point (a ∷ b ∷ c ∷ d ∷ s) = value c * 16 + value d
code_point _ = 0

-- what a character behind a backslash stands for
unescaped : ℕ → Text → ℕ
unescaped d s =
    if d == b'b'
    then 8
    else if d == b't'
    then 9
    else if d == b'n'
    then 10
    else if d == b'f'
    then 12
    else if d == b'r'
    then 13
    else if d == b'u'
    then code_point s
    else d

behind : Text → ℕ
unfolding unescaped
behind [] = 0
behind (d ∷ s) = unescaped d s

-- the first character that a text in quotes stands for
first_of : Text → ℕ
unfolding behind
first_of [] = 0
first_of (c ∷ s) = if c == b'\\' then behind s else c

skip : Text → Text
skip [] = []
skip (d ∷ s) = if d == b'u' then drop 4 s else s

-- what follows it
rest_of : Text → Text
unfolding skip
rest_of [] = []
rest_of (c ∷ s) = if c == b'\\' then skip s else s

low_digits : (c : ℕ) → ltb c 32 ≡ true → value (digit (c / 16)) * 16 + value (digit (c % 16)) ≡ c
low_digits c h =
    let lt : c < 32 = ground arith in
    rw (value-digit (c / 16) (omega arith), value-digit (c % 16) (omega arith)) (omega arith)

first_of-escape_unit : (c : ℕ) (s : Text) → first_of (escape_unit c ++ s) ≡ c
unfolding escape_unit first_of code_point
first_of-escape_unit c s = ground (arith, low_digits c)

rest_of-escape_unit : (c : ℕ) (s : Text) → rest_of (escape_unit c ++ s) ≡ s
unfolding escape_unit rest_of
rest_of-escape_unit c s = ground arith

-- an escaped text does not begin with the quotation mark that ends it
starts_inside : (c : ℕ) (s r : Text) → escape_unit c ++ s ≡ b'"' ∷ r → ⊥
unfolding escape_unit
starts_inside c s r h = ground arith

-- two quoted texts with what follows
escape_injective :
    (s t r q : Text) → escape s ++ b'"' ∷ r ≡ escape t ++ b'"' ∷ q → (s ≡ t) × (r ≡ q)
unfolding escape
escape_injective [] [] r q h = (refl, cc h)
escape_injective [] (d ∷ t) r q h =
    absurd (starts_inside d _ _ (sym (h ∙ append_assoc (escape_unit d) (escape t) (b'"' ∷ q))))
escape_injective (c ∷ s) [] r q h =
    absurd (starts_inside c _ _ (sym (append_assoc (escape_unit c) (escape s) (b'"' ∷ r)) ∙ h))
escape_injective (c ∷ s) (d ∷ t) r q h =
    let a = escape s ++ b'"' ∷ r in
    let b = escape t ++ b'"' ∷ q in
    let e : escape_unit c ++ a ≡ escape_unit d ++ b =
      sym (append_assoc (escape_unit c) (escape s) (b'"' ∷ r))
      ∙ h
      ∙ append_assoc (escape_unit d) (escape t) (b'"' ∷ q) in
    let same : c ≡ d = sym (first_of-escape_unit c a) ∙ ap first_of e ∙ first_of-escape_unit d b in
    let later : a ≡ b = sym (rest_of-escape_unit c a) ∙ ap rest_of e ∙ rest_of-escape_unit d b in
    let (tails, rests) = escape_injective s t r q later in (λ i. same i ∷ tails i, rests)

quote_injective : (s t r q : Text) → quote s ++ r ≡ quote t ++ q → (s ≡ t) × (r ≡ q)
quote_injective s t r q h = escape_injective s t r q (
    sym (append_assoc (escape s) (b'"' ∷ []) r)
    ∙ ap (drop 1) h
    ∙ append_assoc (escape t) (b'"' ∷ []) q)

-- two fields with what stands between them
fields_injective :
    (h o h' o' : Text)
    → quote h ++ (codes ",\"os\":" ++ (quote o ++ codes "}"))
      ≡ quote h' ++ (codes ",\"os\":" ++ (quote o' ++ codes "}"))
    → (h ≡ h') × (o ≡ o')
fields_injective h o h' o' e =
    let (same, rest) = quote_injective h h' _ _ e in
    (same, (quote_injective o o' (codes "}") (codes "}") (ap (drop 6) rest)).0)

-- the letter that the kind starts with
letter : Text → ℕ
letter s = head_or 0 (drop 9 s)

-- Two events with one body are the same: whatever stands in the hex and the slug, also quotation marks,
-- backslashes and control characters, the server can tell what was sent.
pub stringify_injective : (e f : TrackEvent) → stringify e ≡ stringify f → e ≡ f
unfolding stringify letter
stringify_injective (copy h o) (copy h' o') e =
    let (p, q) = fields_injective h o h' o' (ap (drop 21) e) in λ i. copy (p i) (q i)
stringify_injective (download h o) (download h' o') e =
    let (p, q) = fields_injective h o h' o' (ap (drop 25) e) in λ i. download (p i) (q i)
stringify_injective (osview o) (osview o') e =
    ap osview (quote_injective o o' (codes "}") (codes "}") (ap (drop 22) e)).0
stringify_injective (copy h o) (download h' o') e = absurd (omega (arith, ap letter e))
stringify_injective (copy h o) (osview o') e = absurd (omega (arith, ap letter e))
stringify_injective (download h o) (copy h' o') e = absurd (omega (arith, ap letter e))
stringify_injective (download h o) (osview o') e = absurd (omega (arith, ap letter e))
stringify_injective (osview o) (copy h' o') e = absurd (omega (arith, ap letter e))
stringify_injective (osview o) (download h' o') e = absurd (omega (arith, ap letter e))

abbrev pub body_of : Request → Text
body_of (beacon s) = s
body_of (fetched s) = s

-- Whatever the browser offers and whichever of its calls throw, `track` comes to an end with at most one
-- request, whose body is the event's.
pub track_lem :
    (b : Browser) (event : TrackEvent)
    → (length (track b event) ≤ 1) × All (λ r. body_of r ≡ stringify event) (track b event)
unfolding track
track_lem b event = elim (Bool-cases b.has_window) [
  | inr w ↦ rw w (omega arith, tt)
  | inl w ↦ elim (Bool-cases b.has_beacon) [
    | inl n ↦ elim (Bool-cases b.beacon_throws) [
      | inl t ↦ rw (w, n, t) (omega arith, tt)
      | inr t ↦ rw (w, n, t) (omega arith, (refl, tt))
    ]
    | inr n ↦ elim (Bool-cases b.has_fetch) [
      | inr f ↦ rw (w, n, f) (omega arith, tt)
      | inl f ↦ elim (Bool-cases b.fetch_throws) [
        | inl t ↦ rw (w, n, f, t) (omega arith, tt)
        | inr t ↦ rw (w, n, f, t) (omega arith, (refl, tt))
      ]
    ]
  ]
]
