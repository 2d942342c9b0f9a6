-- ===== src/SourceNote/Canonical.antt =====
-- Printing and tokenizing again: a list of tokens in canonical form is read back unchanged.
use mathlib.Core.List.{append_assoc, append-nil}
use desktopcolors.Common.{
  ℕ, zero, suc, ◌≤◌, List, [], ◌∷◌, ◌++◌, none, some, ◌≡◌, ◌≢◌, refl, ◌∙◌, arith, Text, All, length,
  inl, inr, Option-cases, length-append,
}
use desktopcolors.SourceNote.{
  Token, break_at, closer_of, enclosed, flush, nonempty, span_at, tokenize_from,
  tokenize_source_note,
}
use desktopcolors.SourceNote.Tokens.{spell_all, span_at-length}

abbrev pub Lacks : ℕ → Text → Type 0
Lacks c = All (λ d. d ≢ c)

-- what a token may hold so that it can be told apart in the text
abbrev pub IsClear : Token → Type 0
IsClear (Token.text s) = (s ≢ []) × Lacks b'[' s × Lacks b'`' s
IsClear (Token.code s) = (s ≢ []) × Lacks b'`' s
IsClear (Token.marker s) = (s ≢ []) × Lacks b']' s

abbrev pub NoText : List Token → Type 0
NoText [] = Unit
NoText (Token.text s ∷ ts) = ⊥
NoText (Token.code s ∷ ts) = Unit
NoText (Token.marker s ∷ ts) = Unit

-- clear tokens, no two texts in a row
abbrev pub IsCanonical : List Token → Type 0
IsCanonical [] = Unit
IsCanonical (Token.text s ∷ ts) = IsClear (Token.text s) × NoText ts × IsCanonical ts
IsCanonical (Token.code s ∷ ts) = IsClear (Token.code s) × IsCanonical ts
IsCanonical (Token.marker s ∷ ts) = IsClear (Token.marker s) × IsCanonical ts

-- any fuel that covers the text gives the same tokens
tokenize_from_fuel :
    (f g : ℕ) (s lit : Text) (out : List Token)
    → length s ≤ f
    → length s ≤ g
    → tokenize_from f s lit out ≡ tokenize_from g s lit out
unfolding tokenize_from
tokenize_from_fuel zero zero s lit out h k = refl
tokenize_from_fuel zero (suc g) [] lit out h k = refl
tokenize_from_fuel (suc f) zero [] lit out h k = refl
tokenize_from_fuel (suc f) (suc g) [] lit out h k = refl
tokenize_from_fuel zero (suc g) (ch ∷ rest) lit out h k = absurd (omega arith)
tokenize_from_fuel (suc f) zero (ch ∷ rest) lit out h k = absurd (omega arith)
tokenize_from_fuel (suc f) (suc g) (ch ∷ rest) lit out h k = elim (Option-cases (span_at ch rest)) [
  | inl e ↦
      rw (e, tokenize_from)
        (tokenize_from_fuel f g rest (lit ++ ch ∷ []) out (omega arith) (omega arith))
  | inr ((inner, after), e) ↦
      let shorter = span_at-length ch rest inner after e in
      rw (e, tokenize_from)
        (tokenize_from_fuel f g after [] (flush lit out ++ enclosed ch inner ∷ []) (omega arith)
          (omega arith))
]

break_at-append : (c : ℕ) (s rest : Text) → Lacks c s → break_at c (s ++ c ∷ rest) ≡ some (s, rest)
unfolding break_at
break_at-append c [] rest h = ground arith
break_at-append c (d ∷ s) rest h = ground (arith, break_at-append c s rest h.1)

nonempty_of_ne : (s rest : Text) → s ≢ [] → nonempty (some (s, rest)) ≡ some (s, rest)
unfolding nonempty
nonempty_of_ne [] rest h = absurd (h refl)
nonempty_of_ne (c ∷ s) rest h = refl

span_at_marker :
    (s rest : Text) → s ≢ [] → Lacks b']' s → span_at b'[' (s ++ b']' ∷ rest) ≡ some (s, rest)
unfolding span_at closer_of
span_at_marker s rest n h = rw (break_at-append b']' s rest h) (nonempty_of_ne s rest n)

span_at_code :
    (s rest : Text) → s ≢ [] → Lacks b'`' s → span_at b'`' (s ++ b'`' ∷ rest) ≡ some (s, rest)
unfolding span_at closer_of
span_at_code s rest n h = rw (break_at-append b'`' s rest h) (nonempty_of_ne s rest n)

span_at_literal : (c : ℕ) (rest : Text) → c ≢ b'[' → c ≢ b'`' → span_at c rest ≡ none
unfolding span_at closer_of
span_at_literal c rest h k = ground arith

tokenize_from_literal :
    (f g : ℕ) (s rest lit : Text) (out : List Token)
    → Lacks b'[' s
    → Lacks b'`' s
    → length (s ++ rest) ≤ f
    → length rest ≤ g
    → tokenize_from f (s ++ rest) lit out ≡ tokenize_from g rest (lit ++ s) out
unfolding tokenize_from
tokenize_from_literal f g [] rest lit out h k p q =
    rw (append-nil lit) (tokenize_from_fuel f g rest lit out p q)
tokenize_from_literal zero g (c ∷ s) rest lit out h k p q = absurd (omega arith)
tokenize_from_literal (suc f) g (c ∷ s) rest lit out h k p q =
    rw (span_at_literal c (s ++ rest) h.0 k.0, tokenize_from)
      (tokenize_from_literal f g s rest (lit ++ c ∷ []) out h.1 k.1 (omega arith) q
        ∙ simp append_assoc)

-- a pending literal may stand before anything but a text
abbrev Fits : Text → List Token → Type 0
Fits [] ts = Unit
Fits (c ∷ lit) ts = NoText ts

Fits-of_NoText : (lit : Text) (ts : List Token) → NoText ts → Fits lit ts
Fits-of_NoText [] ts h = tt
Fits-of_NoText (c ∷ lit) ts h = h

flush_of_ne : (s : Text) (out : List Token) → s ≢ [] → flush s out ≡ out ++ Token.text s ∷ []
unfolding flush
flush_of_ne [] out h = absurd (h refl)
flush_of_ne (c ∷ s) out h = refl

rest_fits :
    (s : Text) (c : ℕ) (rest : Text) (f : ℕ)
    → suc (length ((s ++ c ∷ []) ++ rest)) ≤ suc f
    → length rest ≤ f
rest_fits s c rest f h = omega (arith, length-append (s ++ c ∷ []) rest)

span_step :
    (f : ℕ) (ch : ℕ) (rest inner after lit : Text) (out : List Token)
    → span_at ch rest ≡ some (inner, after)
    → tokenize_from (suc f) (ch ∷ rest) lit out
      ≡ tokenize_from f after [] (flush lit out ++ enclosed ch inner ∷ [])
unfolding tokenize_from
span_step f ch rest inner after lit out e = rw (e, tokenize_from)

tokenize_from-spell_all :
    (ts : List Token) (f : ℕ) (lit : Text) (out : List Token)
    → IsCanonical ts
    → Fits lit ts
    → length (spell_all ts) ≤ f
    → tokenize_from f (spell_all ts) lit out ≡ flush lit out ++ ts
unfolding enclosed
tokenize_from-spell_all [] f lit out c fit h =
    rw append-nil
      (tokenize_from_fuel f zero [] lit out h (omega arith) ∙ unfold tokenize_from in refl)
tokenize_from-spell_all (Token.text s ∷ ts) f (d ∷ lit) out c fit h = elim fit [ ]
tokenize_from-spell_all (Token.text s ∷ ts) f [] out ((n, p, q), nt, c) fit h =
    tokenize_from_literal f f s (spell_all ts) [] out p q h
      (omega (arith, length-append s (spell_all ts)))
    ∙ tokenize_from-spell_all ts f s out c (Fits-of_NoText s ts nt)
        (omega (arith, length-append s (spell_all ts)))
    ∙ rw (flush_of_ne s out n, append_assoc) (unfold flush in refl)
tokenize_from-spell_all (Token.code s ∷ ts) zero lit out c fit h = absurd (omega arith)
tokenize_from-spell_all (Token.code s ∷ ts) (suc f) lit out ((n, p), c) fit h =
    rw (append_assoc s (b'`' ∷ []) (spell_all ts)) (
      span_step f b'`' _ s (spell_all ts) lit out (span_at_code s (spell_all ts) n p)
      ∙ tokenize_from-spell_all ts f [] (flush lit out ++ Token.code s ∷ []) c tt
          (rest_fits s b'`' (spell_all ts) f h)
      ∙ unfold flush in append_assoc (flush lit out) (Token.code s ∷ []) ts)
tokenize_from-spell_all (Token.marker s ∷ ts) zero lit out c fit h = absurd (omega arith)
tokenize_from-spell_all (Token.marker s ∷ ts) (suc f) lit out ((n, p), c) fit h =
    rw (append_assoc s (b']' ∷ []) (spell_all ts)) (
      span_step f b'[' _ s (spell_all ts) lit out (span_at_marker s (spell_all ts) n p)
      ∙ tokenize_from-spell_all ts f [] (flush lit out ++ Token.marker s ∷ []) c tt
          (rest_fits s b']' (spell_all ts) f h)
      ∙ unfold flush in append_assoc (flush lit out) (Token.marker s ∷ []) ts)

-- A list of tokens in canonical form is read back from its spelling: nonempty values, a code span
-- without backtick, a label without closing bracket, texts without opening bracket or backtick, and
-- no two texts in a row.
pub tokenize_source_note-spell_all :
    (ts : List Token) → IsCanonical ts → tokenize_source_note (spell_all ts) ≡ ts
unfolding tokenize_source_note flush
tokenize_source_note-spell_all ts c =
    tokenize_from-spell_all ts (length (spell_all ts)) [] [] c tt (omega arith)
