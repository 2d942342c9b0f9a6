-- ===== src/Page/Loading.antt =====
-- Once the details have arrived, every color of the page has its own.
use desktopcolors.Common.{
  [], ◌∷◌, Option, none, some, false, ◌≡◌, refl, sym, ◌∙◌, Text, text_eq, text_eq_iff, text_eq_comm,
  to_lower_case, All, Dict, lookup, put, keys, Distinct, lookup-put, Bool-cases, inl, inr,
}
use desktopcolors.Detail.Defs.{DetailColor}
use desktopcolors.Page.Defs.{spread}

-- `a ?? b`
abbrev pub or_else {ℓ} : {A : Type ℓ} → Option A → Option A → Option A
or_else none b = b
or_else (some a) b = some a

lookup_absent {ℓ} :
    {A : Type ℓ} (k : Text) (e : Dict A)
    → All (λ j. text_eq k j ≡ false) (keys e)
    → lookup k e ≡ none
unfolding lookup
lookup_absent k [] h = refl
lookup_absent k ((j, v) ∷ e) h = rw (sym (text_eq_comm k j) ∙ h.0) (lookup_absent k e h.1)

pub spread-lookup {ℓ} :
    {A : Type ℓ} (k : Text) (d e : Dict A)
    → Distinct (keys e)
    → lookup k (spread d e) ≡ or_else (lookup k e) (lookup k d)
unfolding spread lookup
spread-lookup k d [] h = refl
spread-lookup k d ((j, v) ∷ e) h =
    spread-lookup k (put j v d) e h.1 ∙ elim (Bool-cases (text_eq j k)) [
      | inl t ↦
          let same = (text_eq_iff j k).0 t in
          rw (t, lookup-put) (rw (t, lookup_absent k e (rw same at h.0)) refl)
      | inr t ↦ rw (t, lookup-put) (rw t refl)
    ]

module _ {F : Type 0} where
  abbrev pub key_of : DetailColor F → Text
  key_of c = to_lower_case c.color.hex
