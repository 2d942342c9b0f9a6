-- ===== src/SourceNote/Markers.antt =====
-- The distinct labels that a note cites, against its tokens; lists that are empty.
use desktopcolors.Common.{
  List, [], ◌∷◌, ◌++◌, map, ◌≡◌, ◌↔◌, ◌⊎◌, inl, inr, refl, subst, arith, Bool, true, false, Text,
  text_eq, text_eq_iff, All, Any, All-append, any-append, any, filter, Dict, Bool-cases,
}
use desktopcolors.SourceNote.{Token, tokenize_source_note, markers_from, markers_of, is_in}

abbrev pub Cites : Text → List Token → Type 0
Cites label = Any (λ t. t ≡ Token.marker label)

-- a marker has an entry to point to, any other token needs none
abbrev pub IsResolved : Dict Text → Token → Type 0
IsResolved links (Token.text s) = Unit
IsResolved links (Token.code s) = Unit
IsResolved links (Token.marker label) = is_in label links ≡ true

module _ {ℓ} {A : Type ℓ} where
  pub filter-eq-nil : (p : A → Bool) (xs : List A) → (filter p xs ≡ []) ↔ All (λ x. p x ≡ false) xs
  filter-eq-nil p [] = (λ _. tt, λ _. refl)
  filter-eq-nil p (x ∷ xs) = ground (arith, filter-eq-nil p xs)

  pub map-eq-nil {κ} : {B : Type κ} (f : A → B) (xs : List A) → (map f xs ≡ []) ↔ (xs ≡ [])
  map-eq-nil f [] = (λ _. refl, λ _. refl)
  map-eq-nil f (x ∷ xs) = (λ h. cc h, λ h. cc h)

  pub append-eq-nil : (xs ys : List A) → (xs ++ ys ≡ []) ↔ ((xs ≡ []) × (ys ≡ []))
  append-eq-nil [] ys = (λ h. (refl, h), λ h. h.1)
  append-eq-nil (x ∷ xs) ys = (λ h. cc h, λ h. cc (h.0))

-- the labels that are kept: those of `out` and those that the tokens cite
pub All-markers_from :
    (P : Text → Type 0) (ts : List Token) (out : List Text)
    → All P out
    → ((label : Text) → Cites label ts → P label)
    → All P (markers_from ts out)
unfolding markers_from
All-markers_from P [] out h k = h
All-markers_from P (Token.marker l ∷ ts) out h k = elim (Bool-cases (any (λ j. text_eq j l) out)) [
  | inl e ↦ rw e (All-markers_from P ts out h (λ m c. k m (inr c)))
  | inr e ↦ rw e (
      All-markers_from P ts (out ++ l ∷ []) (All-append P out (l ∷ []) h (k l (inl refl), tt))
        (λ m c. k m (inr c)))
]
All-markers_from P (Token.text s ∷ ts) out h k = All-markers_from P ts out h (λ l c. k l (inr c))
All-markers_from P (Token.code s ∷ ts) out h k = All-markers_from P ts out h (λ l c. k l (inr c))

marker-injective : {k l : Text} → Token.marker k ≡ Token.marker l → k ≡ l
marker-injective e = cc e

any_concat :
    (label l : Text) (out : List Text)
    → (any (λ k. text_eq k label) out ≡ true) ⊎ (l ≡ label)
    → any (λ k. text_eq k label) (out ++ l ∷ []) ≡ true
any_concat label l out h = rw any-append (ground (arith, text_eq_iff l label))

-- a label of `out`, or one that is cited, is kept
any-markers_from :
    (label : Text) (ts : List Token) (out : List Text)
    → (any (λ k. text_eq k label) out ≡ true) ⊎ Cites label ts
    → any (λ k. text_eq k label) (markers_from ts out) ≡ true
unfolding markers_from
any-markers_from label [] out (inl h) = h
any-markers_from label [] out (inr h) = elim h [ ]
any-markers_from label (Token.text s ∷ ts) out (inl h) = any-markers_from label ts out (inl h)
any-markers_from label (Token.text s ∷ ts) out (inr (inl e)) = cc e
any-markers_from label (Token.text s ∷ ts) out (inr (inr c)) = any-markers_from label ts out (inr c)
any-markers_from label (Token.code s ∷ ts) out (inl h) = any-markers_from label ts out (inl h)
any-markers_from label (Token.code s ∷ ts) out (inr (inl e)) = cc e
any-markers_from label (Token.code s ∷ ts) out (inr (inr c)) = any-markers_from label ts out (inr c)
any-markers_from label (Token.marker l ∷ ts) out h =
    elim (Bool-cases (any (λ j. text_eq j l) out)) [
      | inl old ↦ rw old (any-markers_from label ts out (known h old))
      | inr new ↦ rw new (any-markers_from label ts (out ++ l ∷ []) (added h))
    ]
  where
    known :
        (any (λ k. text_eq k label) out ≡ true) ⊎ Cites label (Token.marker l ∷ ts)
        → any (λ j. text_eq j l) out ≡ true
        → (any (λ k. text_eq k label) out ≡ true) ⊎ Cites label ts
    known (inl h) old = inl h
    known (inr (inl e)) old =
        inl (subst (λ m. any (λ j. text_eq j m) out ≡ true) (marker-injective e) old)
    known (inr (inr c)) old = inr c

    added :
        (any (λ k. text_eq k label) out ≡ true) ⊎ Cites label (Token.marker l ∷ ts)
        → (any (λ k. text_eq k label) (out ++ l ∷ []) ≡ true) ⊎ Cites label ts
    added (inl h) = inl (any_concat label l out (inl h))
    added (inr (inl e)) = inl (any_concat label l out (inr (marker-injective e)))
    added (inr (inr c)) = inr c

-- from what holds of a text that is listed
pub at_listed :
    (P : Text → Type 0) (label : Text) (xs : List Text)
    → All P xs
    → any (λ k. text_eq k label) xs ≡ true
    → P label
at_listed P label [] h e = cc e
at_listed P label (x ∷ xs) h e = elim (Bool-cases (text_eq x label)) [
  | inl same ↦ subst P ((text_eq_iff x label).0 same) h.0
  | inr other ↦ at_listed P label xs h.1 (ground arith)
]

pub markers_of_iff :
    (label s : Text)
    → (any (λ k. text_eq k label) (markers_of s) ≡ true) ↔ Cites label (tokenize_source_note s)
unfolding markers_of
markers_of_iff label s = (
  at_listed (λ l. Cites l (tokenize_source_note s)) label _
      (All-markers_from (λ l. Cites l (tokenize_source_note s)) (tokenize_source_note s) [] tt
        (λ l c. c)),
  λ c. any-markers_from label (tokenize_source_note s) [] (inr c),
)

pub IsResolved-of_cited :
    (links : Dict Text) (ts : List Token)
    → ((label : Text) → Cites label ts → is_in label links ≡ true)
    → All (IsResolved links) ts
IsResolved-of_cited links [] h = tt
IsResolved-of_cited links (Token.text s ∷ ts) h =
    (tt, IsResolved-of_cited links ts (λ l c. h l (inr c)))
IsResolved-of_cited links (Token.code s ∷ ts) h =
    (tt, IsResolved-of_cited links ts (λ l c. h l (inr c)))
IsResolved-of_cited links (Token.marker l ∷ ts) h =
    (h l (inl refl), IsResolved-of_cited links ts (λ l c. h l (inr c)))

pub cited_of_IsResolved :
    (links : Dict Text) (label : Text) (ts : List Token)
    → All (IsResolved links) ts
    → Cites label ts
    → is_in label links ≡ true
cited_of_IsResolved links label (t ∷ ts) h (inl e) = subst (IsResolved links) e h.0
cited_of_IsResolved links label (t ∷ ts) h (inr c) = cited_of_IsResolved links label ts h.1 c
cited_of_IsResolved links label [] h c = elim c [ ]

-- what holds of every cited label holds of every marker that is kept
pub markers_of-All :
    (P : Text → Type 0) (s : Text)
    → ((label : Text) → Cites label (tokenize_source_note s) → P label)
    → All P (markers_of s)
unfolding markers_of
markers_of-All P s h = All-markers_from P (tokenize_source_note s) [] tt h
