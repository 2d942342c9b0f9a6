-- ===== src/SourceNote/Tokens.antt =====
-- The tokenizer loses nothing: the tokens spell the text.
use mathlib.Core.List.{append_assoc, append-nil}
use desktopcolors.Common.{
  ℕ, zero, suc, ◌≤◌, List, [], ◌∷◌, ◌++◌, Option, none, some, ◌≢◌, ◌≡◌, refl, sym, ap, ◌∙◌, arith,
  Text, length, inl, inr, Option-cases, length-append,
}
use desktopcolors.SourceNote.{
  Token, break_at, closer_of, enclosed, flush, nonempty, span_at, tokenize_from,
  tokenize_source_note,
}

-- the source text of a token, and of a list of them
abbrev pub spell : Token → Text
spell (Token.text s) = s
spell (Token.code s) = b'`' ∷ (s ++ b'`' ∷ [])
spell (Token.marker s) = b'[' ∷ (s ++ b']' ∷ [])

abbrev pub spell_all : List Token → Text
spell_all [] = []
spell_all (t ∷ ts) = spell t ++ spell_all ts

spell_all-append : (ts us : List Token) → spell_all (ts ++ us) ≡ spell_all ts ++ spell_all us
spell_all-append [] us = refl
spell_all-append (t ∷ ts) us = simp (spell_all-append ts us, append_assoc)

break_at_lem :
    (c : ℕ) (s before after : Text) → break_at c s ≡ some (before, after) → s ≡ before ++ c ∷ after
unfolding break_at
break_at_lem c [] before after h = cc
break_at_lem c (d ∷ s) before after h = elim (Option-cases (break_at c s)) [
  | inl e ↦ ground arith
  | inr (p, e) ↦ ground (arith, break_at_lem c s p.0 p.1)
]

nonempty_lem :
    (o : Option (Text × Text)) (inner after : Text)
    → nonempty o ≡ some (inner, after)
    → (o ≡ some (inner, after)) × (inner ≢ [])
unfolding nonempty
nonempty_lem none inner after h = cc
nonempty_lem (some ([], s)) inner after h = cc
nonempty_lem (some (c ∷ t, s)) inner after h = ground arith

-- the closer was found behind a nonempty inner text
span_at_inv :
    (ch : ℕ) (rest inner after : Text)
    → span_at ch rest ≡ some (inner, after)
    → (close : ℕ) × (closer_of ch ≡ some close)
      × (break_at close rest ≡ some (inner, after))
      × (inner ≢ [])
unfolding span_at
span_at_inv ch rest inner after h = elim (Option-cases (closer_of ch)) [
  | inl e ↦ cc (rw (e, span_at) at h)
  | inr (close, e) ↦
      let (b, n) = nonempty_lem _ inner after (rw (e, span_at) at h) in (close, e, b, n)
]

-- an opened span is its token, and what follows it
span_at_lem :
    (ch : ℕ) (rest inner after : Text)
    → span_at ch rest ≡ some (inner, after)
    → ch ∷ rest ≡ spell (enclosed ch inner) ++ after
unfolding enclosed closer_of
span_at_lem ch rest inner after h =
    let (close, c, b, n) = span_at_inv ch rest inner after h in
    let e = break_at_lem close rest inner after b in
    ground (arith, append_assoc inner (b']' ∷ []) after, append_assoc inner (b'`' ∷ []) after)

-- a round that opens a span reads at least three characters
pub span_at-length :
    (ch : ℕ) (rest inner after : Text)
    → span_at ch rest ≡ some (inner, after)
    → length after ≤ length rest
span_at-length ch rest inner after h =
    let (close, c, b, n) = span_at_inv ch rest inner after h in
    let e = break_at_lem close rest inner after b in
    omega (arith, ap length e, length-append inner (close ∷ after))

flush_lem : (lit : Text) (out : List Token) → spell_all (flush lit out) ≡ spell_all out ++ lit
unfolding flush
flush_lem [] out = sym (append-nil (spell_all out))
flush_lem (c ∷ lit) out = simp (spell_all-append, append-nil)

tokenize_from-spell :
    (fuel : ℕ) (s lit : Text) (out : List Token)
    → length s ≤ fuel
    → spell_all (tokenize_from fuel s lit out) ≡ spell_all out ++ (lit ++ s)
unfolding tokenize_from
tokenize_from-spell zero [] lit out h = rw (append-nil lit) (flush_lem lit out)
tokenize_from-spell (suc fuel) [] lit out h = rw (append-nil lit) (flush_lem lit out)
tokenize_from-spell zero (ch ∷ rest) lit out h = absurd (omega arith)
tokenize_from-spell (suc fuel) (ch ∷ rest) lit out h = elim (Option-cases (span_at ch rest)) [
  | inl e ↦
      rw (e, tokenize_from)
        (tokenize_from-spell fuel rest (lit ++ ch ∷ []) out (omega arith) ∙ simp append_assoc)
  | inr ((inner, after), e) ↦
      rw (e, tokenize_from)
        (tokenize_from-spell fuel after [] (flush lit out ++ enclosed ch inner ∷ [])
            (omega (arith, span_at-length ch rest inner after e))
          ∙ simp (spell_all-append, flush_lem, append_assoc, append-nil)
              (ap (λ t. spell_all out ++ (lit ++ t)) (sym (span_at_lem ch rest inner after e))))
]

-- The tokens of a note spell its text, every character in its place: none is lost or invented.
pub spell_all-tokenize_source_note : (s : Text) → spell_all (tokenize_source_note s) ≡ s
unfolding tokenize_source_note
spell_all-tokenize_source_note s = tokenize_from-spell (length s) s [] [] (omega arith)
