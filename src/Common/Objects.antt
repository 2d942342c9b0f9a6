-- ===== src/Common/Objects.antt =====
-- `Map` and plain objects keyed by text: the own keys in the order of their first insertion.
use mathlib.Core.Path.{◌≡◌, refl, subst}
use mathlib.Core.Bool.{false}
use mathlib.Core.List.{List, [], ◌∷◌}
use mathlib.Core.Option.{Option, none, some}
use mathlib.Core.Logic.{inl, inr}
use native.Mathlib.Omega.{arith}
use desktopcolors.Common.Decide.{if◌then◌else◌, Bool-cases}
use desktopcolors.Common.Lists.{All}
use desktopcolors.Common.Strings.{Text, text_eq, text_eq_iff}

abbrev pub Dict {ℓ} : Type ℓ → Type ℓ
Dict V = List (Text × V)

-- no key twice
abbrev pub Distinct : List Text → Type 0
Distinct [] = Unit
Distinct (k ∷ ks) = All (λ j. text_eq k j ≡ false) ks × Distinct ks

module _ {ℓ} {V : Type ℓ} where
  -- `d[k]` and `map.get(k)`
  unfoldable pub lookup : Text → Dict V → Option V
  lookup k [] = none
  lookup k ((j, v) ∷ d) = let later = lookup k d in if text_eq j k then some v else later

  -- `d[k] = v` and `map.set(k, v)`
  unfoldable pub put : Text → V → Dict V → Dict V
  put k v [] = (k, v) ∷ []
  put k v ((j, w) ∷ d) = let later = (j, w) ∷ put k v d in if text_eq j k then (k, v) ∷ d else later

  -- `delete d[k]`
  unfoldable pub delete : Text → Dict V → Dict V
  delete k [] = []
  delete k ((j, w) ∷ d) = let rest = delete k d in if text_eq j k then rest else (j, w) ∷ rest

  -- `Object.keys(d)`
  abbrev pub keys : Dict V → List Text
  keys [] = []
  keys ((k, v) ∷ d) = k ∷ keys d

  pub lookup-put :
      (k j : Text) (v : V) (d : Dict V)
      → lookup j (put k v d) ≡ (if text_eq k j then some v else lookup j d)
  unfolding lookup put
  lookup-put k j v [] = refl
  lookup-put k j v ((i, w) ∷ d) =
      ground (arith, text_eq_iff k j, text_eq_iff i k, text_eq_iff i j, lookup-put k j v d)

  pub lookup-delete :
      (k j : Text) (d : Dict V) → lookup j (delete k d) ≡ (if text_eq k j then none else lookup j d)
  unfolding lookup delete
  lookup-delete k j [] = ground arith
  lookup-delete k j ((i, w) ∷ d) =
      ground (arith, text_eq_iff k j, text_eq_iff i k, text_eq_iff i j, lookup-delete k j d)

  All-keys-put :
      (P : Text → Type 0) (k : Text) (v : V) (d : Dict V)
      → P k
      → All P (keys d)
      → All P (keys (put k v d))
  unfolding put
  All-keys-put P k v [] p h = (p, tt)
  All-keys-put P k v ((j, w) ∷ d) p h = elim (Bool-cases (text_eq j k)) [
    | inl e ↦ rw e (p, h.1)
    | inr e ↦ rw e (h.0, All-keys-put P k v d p h.1)
  ]

  pub put-Distinct :
      (k : Text) (v : V) (d : Dict V) → Distinct (keys d) → Distinct (keys (put k v d))
  unfolding put
  put-Distinct k v [] h = (tt, tt)
  put-Distinct k v ((j, w) ∷ d) h = elim (Bool-cases (text_eq j k)) [
    | inl e ↦ let same = (text_eq_iff j k).0 e in rw e (rw same at h)
    | inr e ↦ rw e (All-keys-put (λ i. text_eq j i ≡ false) k v d e h.0, put-Distinct k v d h.1)
  ]

  pub All-put :
      (P : Text × V → Type 0) (k : Text) (v : V) (d : Dict V)
      → P (k, v)
      → All P d
      → All P (put k v d)
  unfolding put
  All-put P k v [] p h = (p, tt)
  All-put P k v ((j, w) ∷ d) p h = elim (Bool-cases (text_eq j k)) [
    | inl e ↦ rw e (p, h.1)
    | inr e ↦ rw e (h.0, All-put P k v d p h.1)
  ]

  -- what is found under a key is an entry
  pub lookup-All :
      (P : Text × V → Type 0) (k : Text) (d : Dict V) (v : V)
      → lookup k d ≡ some v
      → All P d
      → P (k, v)
  unfolding lookup
  lookup-All P k [] v e h = cc e
  lookup-All P k ((j, w) ∷ d) v e h = elim (Bool-cases (text_eq j k)) [
    | inl t ↦
        let same = (text_eq_iff j k).0 t in
        let found : w ≡ v = ground arith in subst P (λ i. (same i, found i)) h.0
    | inr t ↦ lookup-All P k d v (ground arith) h.1
  ]
