-- ===== src/Scores/Laws.antt =====
-- What a score is after parsing: the last finite number that the file gives under the key.
use desktopcolors.Common.{
  ℕ, [], ◌∷◌, Option, none, some, Bool, true, false, ◌≡◌, ◌∙◌, ap, refl, arith, Text, codes,
  text_eq, text_eq_iff, to_lower_case, lower_unit, get_or, any, if◌then◌else◌, starts_with, Dict,
  keys, Distinct, lookup, put, lookup-put, put-Distinct, Bool-cases, inl, inr,
}
use desktopcolors.SourceNote.{inherited_names}
use desktopcolors.Scores.Defs.{
  Json, null, bool, number, non_finite, text, array, object, Fields, end, field, fields_into,
  fields, entries, key_of, set_score, bucket_from, parse_bucket, parse_scores, Score, points,
  inherited, color_score, os_score,
}

-- the value that a file gives to a name, of several the last
abbrev pub last_value : Text → Fields → Option Json
last_value key end = none
last_value key (field k v fs) = elim (last_value key fs) [
  | some w ↦ some w
  | none ↦ if text_eq k key then some v else none
]

or_else {ℓ} : {A : Type ℓ} → Option A → Option A → Option A
or_else (some a) o = some a
or_else none o = o

fields_into-lookup :
    (key : Text) (fs : Fields) (d : Dict Json)
    → lookup key (fields_into fs d) ≡ or_else (last_value key fs) (lookup key d)
unfolding fields_into or_else
fields_into-lookup key end d = refl
fields_into-lookup key (field k v fs) d =
    fields_into-lookup key fs (put k v d)
    ∙ ap (or_else (last_value key fs)) (lookup-put k key v d)
    ∙ later (last_value key fs)
  where
    later :
        (o : Option Json)
        → or_else o (if text_eq k key then some v else lookup key d)
          ≡ or_else
              (elim o [ some w ↦ some w | none ↦ if text_eq k key then some v else none ])
              (lookup key d)
    later (some w) = refl
    later none = elim (Bool-cases (text_eq k key)) [ inl e ↦ rw e refl | inr e ↦ rw e refl ]

fields_into-Distinct :
    (fs : Fields) (d : Dict Json) → Distinct (keys d) → Distinct (keys (fields_into fs d))
unfolding fields_into
fields_into-Distinct end d h = h
fields_into-Distinct (field k v fs) d h = fields_into-Distinct fs (put k v d) (put-Distinct k v d h)

fields-lookup : (key : Text) (fs : Fields) → lookup key (fields fs) ≡ last_value key fs
unfolding lookup
fields-lookup key fs = fields_into-lookup key fs [] ∙ same (last_value key fs)
  where
    same : (o : Option Json) → or_else o none ≡ o
    same none = unfold or_else in refl
    same (some v) = unfold or_else in refl

-- the last finite number among the entries whose key, lowered for colors, is `k`
abbrev pub last_number : Bool → Text → Dict Json → Option ℕ → Option ℕ
last_number lower_keys k [] n = n
last_number lower_keys k ((j, number m) ∷ es) n =
    last_number lower_keys k es
      (if text_eq (if lower_keys then to_lower_case j else j) k then some m else n)
last_number lower_keys k ((j, null) ∷ es) n = last_number lower_keys k es n
last_number lower_keys k ((j, bool b) ∷ es) n = last_number lower_keys k es n
last_number lower_keys k ((j, non_finite) ∷ es) n = last_number lower_keys k es n
last_number lower_keys k ((j, text s) ∷ es) n = last_number lower_keys k es n
last_number lower_keys k ((j, array vs) ∷ es) n = last_number lower_keys k es n
last_number lower_keys k ((j, object fs) ∷ es) n = last_number lower_keys k es n

set_score-lookup :
    (k j : Text) (m : ℕ) (d : Dict ℕ)
    → text_eq k (codes "__proto__") ≡ false
    → lookup k (set_score j m d) ≡ (if text_eq j k then some m else lookup k d)
unfolding set_score
set_score-lookup k j m d h = elim (Bool-cases (text_eq j (codes "__proto__"))) [
  | inr e ↦ rw e (lookup-put j k m d)
  | inl e ↦
      let same = (text_eq_iff j (codes "__proto__")).0 e in
      let other : text_eq j k ≡ false = elim (Bool-cases (text_eq j k)) [
        | inr f ↦ f
        | inl f ↦
            let here = (text_eq_iff j k).0 f in
            let proto = (text_eq_iff k (codes "__proto__")).1 (cc (same, here)) in cc (proto, h)
      ] in
      rw (e, other) refl
]

module _ (l : Bool) (k : Text) (h : text_eq k (codes "__proto__") ≡ false) where
  bucket_from-lookup :
      (es : Dict Json) (out : Dict ℕ)
      → lookup k (bucket_from l es out) ≡ last_number l k es (lookup k out)
  unfolding bucket_from
  bucket_from-lookup [] out = refl
  bucket_from-lookup ((j, number m) ∷ es) out =
      bucket_from-lookup es (set_score (key_of l j) m out)
      ∙ ap (last_number l k es) (set_score-lookup k (key_of l j) m out h)
  bucket_from-lookup ((j, null) ∷ es) out = bucket_from-lookup es out
  bucket_from-lookup ((j, bool b) ∷ es) out = bucket_from-lookup es out
  bucket_from-lookup ((j, non_finite) ∷ es) out = bucket_from-lookup es out
  bucket_from-lookup ((j, text s) ∷ es) out = bucket_from-lookup es out
  bucket_from-lookup ((j, array vs) ∷ es) out = bucket_from-lookup es out
  bucket_from-lookup ((j, object fs) ∷ es) out = bucket_from-lookup es out

abbrev pub entries_of : Option Json → Dict Json
entries_of none = []
entries_of (some raw) = entries raw

-- the entries of what the file has under a name
abbrev pub member_entries : Text → Json → Dict Json
member_entries key (object fs) = entries_of (last_value key fs)
member_entries key _ = []

parse_bucket-lookup :
    (o : Option Json) (l : Bool) (k : Text)
    → text_eq k (codes "__proto__") ≡ false
    → lookup k (parse_bucket o l) ≡ last_number l k (entries_of o) none
unfolding parse_bucket lookup
parse_bucket-lookup none l k h = refl
parse_bucket-lookup (some raw) l k h = bucket_from-lookup l k h (entries raw) []

buckets_lem :
    (json : Json) (k : Text)
    → text_eq k (codes "__proto__") ≡ false
    → (lookup k (parse_scores json).colors
        ≡ last_number true k (member_entries (codes "colors") json) none)
      × (lookup k (parse_scores json).os
          ≡ last_number false k (member_entries (codes "os") json) none)
unfolding parse_scores
buckets_lem (object fs) k h =
    rw (fields-lookup (codes "colors") fs, fields-lookup (codes "os") fs)
      (
        parse_bucket-lookup (last_value (codes "colors") fs) true k h,
        parse_bucket-lookup (last_value (codes "os") fs) false k h,
      )
buckets_lem null k h = unfold lookup in (refl, refl)
buckets_lem _ k h = unfold lookup in (refl, refl)

-- a hex in lower case is no name that objects inherit
hash_not_proto :
    (hex : Text)
    → starts_with hex (codes "#") ≡ true
    → text_eq (to_lower_case hex) (codes "__proto__") ≡ false
unfolding starts_with to_lower_case text_eq lower_unit
hash_not_proto [] h = cc
hash_not_proto (c ∷ s) h = ground arith

-- The score that a number under a slug is read as: without one it is 0, but a slug that is the name of
-- something that every object inherits reads that.
abbrev pub read_as : Text → Option ℕ → Score
read_as slug (some n) = points n
read_as slug none = if any (λ k. text_eq k slug) inherited_names then inherited else points 0

-- Whatever JSON with natural numbers the file holds: of a name that it writes twice the last value
-- counts. The score of a color, whose hex begins with `#`, is the last finite number under a name of
-- `colors` that spells the hex in any case, and 0 where there is none. The score of a system, whose
-- slug is not `__proto__`, is the finite number under exactly its slug in `os`, and without one 0, but
-- the inherited value where the slug is a name that every object has, such as `constructor`.
pub parse_scores_lem :
    (json : Json) (hex slug : Text)
    → starts_with hex (codes "#") ≡ true
    → text_eq slug (codes "__proto__") ≡ false
    → (color_score (parse_scores json) hex
        ≡ get_or
            (last_number true (to_lower_case hex) (member_entries (codes "colors") json) none)
            0)
      × (os_score (parse_scores json) slug
          ≡ read_as slug (last_number false slug (member_entries (codes "os") json) none))
      × ((gs : Fields)
          → Distinct (keys (entries (object gs)))
            × ((key : Text) → lookup key (entries (object gs)) ≡ last_value key gs))
unfolding color_score os_score
parse_scores_lem json hex slug h k = (
  ap (λ o. get_or o 0) (buckets_lem json (to_lower_case hex) (hash_not_proto hex h)).0,
  ap read (buckets_lem json slug k).1
      ∙ read_lem (last_number false slug (member_entries (codes "os") json) none),
  λ gs. (fields_into-Distinct gs [] tt, λ key. fields-lookup key gs),
)
  where
    read : Option ℕ → Score
    read o = elim o [
      | some n ↦ points n
      | none ↦ if any (λ j. text_eq j slug) inherited_names then inherited else points 0
    ]

    read_lem : (o : Option ℕ) → read o ≡ read_as slug o
    read_lem none = refl
    read_lem (some n) = refl
