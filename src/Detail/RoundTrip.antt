-- ===== src/Detail/RoundTrip.antt =====
-- The page's details survive the way to the browser.
use desktopcolors.Common.{
  List, [], ◌∷◌, ◌++◌, none, some, ◌≡◌, refl, sym, ap, ◌∙◌, Text, text_eq, text_eq_iff,
  if◌then◌else◌, All, Dict, lookup, put, lookup-put, Option-cases, Bool-cases, inl, inr,
}
use desktopcolors.ColorCatalog.Platforms.{Platform}
use desktopcolors.Detail.Defs.{OsMeta, SimilarOf, DetailOf, meta_of, note, note_all}

-- every platform of the details
abbrev pub similar_platforms : {F : Type 0} → List (SimilarOf F Platform) → List Platform
similar_platforms [] = []
similar_platforms (s ∷ ss) = s.platforms ++ similar_platforms ss

abbrev pub all_platforms : {F : Type 0} → List (DetailOf F Platform) → List Platform
all_platforms [] = []
all_platforms (d ∷ ds) = d.uses ++ (similar_platforms d.similar ++ all_platforms ds)

-- the platform can be read back
abbrev IsKnown : Dict OsMeta → Platform → Type 0
IsKnown d p = lookup p.slug d ≡ some (meta_of p)

note-new :
    (p : Platform) (d : Dict OsMeta) → lookup p.slug d ≡ none → note p d ≡ put p.slug (meta_of p) d
unfolding note
note-new p d h = rw (h, note) refl

note-old : (p : Platform) (d : Dict OsMeta) (m : OsMeta) → lookup p.slug d ≡ some m → note p d ≡ d
unfolding note
note-old p d m h = rw (h, note) refl

some_inj : {a b : OsMeta} → some a ≡ some b → a ≡ b
some_inj h = cc h

module _ (table : Text → OsMeta) where
  -- the platform's name, year and family are those of its slug
  abbrev pub IsListed : Platform → Type 0
  IsListed p = meta_of p ≡ table p.slug

  -- the table holds nothing else
  abbrev IsTrue : Dict OsMeta → Type 0
  IsTrue d = (k : Text) (m : OsMeta) → lookup k d ≡ some m → m ≡ table k

  note-IsTrue : (p : Platform) (d : Dict OsMeta) → IsListed p → IsTrue d → IsTrue (note p d)
  note-IsTrue p d l h k m e = elim (Option-cases (lookup p.slug d)) [
    | inl n ↦
        let found : (if text_eq p.slug k then some (meta_of p) else lookup k d) ≡ some m =
          sym (lookup-put p.slug k (meta_of p) d) ∙ rw (note-new p d n) at e in
        elim (Bool-cases (text_eq p.slug k)) [
          | inl t ↦ sym (some_inj (rw t at found)) ∙ l ∙ ap table ((text_eq_iff p.slug k).0 t)
          | inr t ↦ h k m (rw t at found)
        ]
    | inr (v, s) ↦ h k m (rw (note-old p d v s) at e)
  ]

  note_all-IsTrue :
      (ps : List Platform) (d : Dict OsMeta) → All IsListed ps → IsTrue d → IsTrue (note_all ps d)
  unfolding note_all
  note_all-IsTrue [] d l h = h
  note_all-IsTrue (p ∷ ps) d l h = note_all-IsTrue ps (note p d) l.1 (note-IsTrue p d l.0 h)
