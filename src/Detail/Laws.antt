-- ===== src/Detail/Laws.antt =====
-- The similar colors that a page shows, and when a page can be built.
use desktopcolors.Common.{
  ℕ, zero, suc, ◌≤◌, All-map, List, [], ◌∷◌, Option, none, Bool, true, false, not, ◌&&◌, ◌||◌, ◌≡◌,
  refl, arith, Text, text_eq, text_eq_iff, to_lower_case, if◌then◌else◌, All, All-filter,
  All-filter_of, All-take, filter, find?, length, length-take-le, take, Bool-cases, inl, inr,
}
use desktopcolors.Color.Floats.{Floats}
use desktopcolors.Derive.Defs.{OsEntry, SimilarColor, similar_colors}
use desktopcolors.Detail.Build.{is_seen, dedupe, dedupe_similar_by_hex, shown_similar}

or_false : {a b : Bool} → (a || b) ≡ false → (a ≡ false) × (b ≡ false)
or_false {a = false} h = (refl, h)
or_false {a = true} h = cc h

and_true : {a b : Bool} → (a && b) ≡ true → (a ≡ true) × (b ≡ true)
and_true {a = true} h = (refl, h)
and_true {a = false} h = cc h

module _ (fl : Floats) where
  -- no hex twice
  abbrev pub HexesDiffer : List (SimilarColor fl) → Type 0
  HexesDiffer [] = Unit
  HexesDiffer (c ∷ cs) = All (λ d. text_eq c.hex d.hex ≡ false) cs × HexesDiffer cs

  -- the first color with the hex
  abbrev pub with_hex : Text → List (SimilarColor fl) → Option (SimilarColor fl)
  with_hex k = find? (λ c. text_eq c.hex k)

  dedupe-with_hex :
      (k : Text) (seen : List Text) (cs : List (SimilarColor fl))
      → with_hex k (dedupe fl seen cs) ≡ (if is_seen seen k then none else with_hex k cs)
  unfolding dedupe is_seen
  dedupe-with_hex k seen [] = ground arith
  dedupe-with_hex k seen (c ∷ cs) =
      ground
        (arith, text_eq_iff c.hex k, dedupe-with_hex k seen cs, dedupe-with_hex k (c.hex ∷ seen) cs)

  dedupe-unseen :
      (seen : List Text) (cs : List (SimilarColor fl))
      → All (λ d. is_seen seen d.hex ≡ false) (dedupe fl seen cs)
  unfolding dedupe is_seen
  dedupe-unseen seen [] = tt
  dedupe-unseen seen (c ∷ cs) = elim (Bool-cases (is_seen seen c.hex)) [
    | inl e ↦ rw e (dedupe-unseen seen cs)
    | inr e ↦ rw e (
      e,
      All-map (λ d h. (or_false h).1) (dedupe fl (c.hex ∷ seen) cs)
          (dedupe-unseen (c.hex ∷ seen) cs),
    )
  ]

  dedupe-HexesDiffer :
      (seen : List Text) (cs : List (SimilarColor fl)) → HexesDiffer (dedupe fl seen cs)
  unfolding dedupe is_seen
  dedupe-HexesDiffer seen [] = tt
  dedupe-HexesDiffer seen (c ∷ cs) = elim (Bool-cases (is_seen seen c.hex)) [
    | inl e ↦ rw e (dedupe-HexesDiffer seen cs)
    | inr e ↦ rw e (
      All-map (λ d h. (or_false h).0) (dedupe fl (c.hex ∷ seen) cs)
          (dedupe-unseen (c.hex ∷ seen) cs),
      dedupe-HexesDiffer (c.hex ∷ seen) cs,
    )
  ]

  filter-HexesDiffer :
      (p : SimilarColor fl → Bool) (cs : List (SimilarColor fl))
      → HexesDiffer cs
      → HexesDiffer (filter p cs)
  filter-HexesDiffer p [] h = tt
  filter-HexesDiffer p (c ∷ cs) h = elim (Bool-cases (p c)) [
    | inl e ↦
        rw e
          (All-filter_of (λ d. text_eq c.hex d.hex ≡ false) p cs h.0, filter-HexesDiffer p cs h.1)
    | inr e ↦ rw e (filter-HexesDiffer p cs h.1)
  ]

  take-HexesDiffer :
      (n : ℕ) (cs : List (SimilarColor fl)) → HexesDiffer cs → HexesDiffer (take n cs)
  take-HexesDiffer zero cs h = tt
  take-HexesDiffer (suc n) [] h = tt
  take-HexesDiffer (suc n) (c ∷ cs) h =
      (All-take (λ d. text_eq c.hex d.hex ≡ false) n cs h.0, take-HexesDiffer n cs h.1)

  -- Of the colors with one hex the first is kept, and only it: no hex stands twice in the result, and the
  -- first color with a hex is the same as in the list.
  pub dedupe_similar_by_hex_lem :
      (list : List (SimilarColor fl))
      → HexesDiffer (dedupe_similar_by_hex fl list)
        × ((k : Text) → with_hex k (dedupe_similar_by_hex fl list) ≡ with_hex k list)
  unfolding dedupe_similar_by_hex is_seen
  dedupe_similar_by_hex_lem list = (dedupe-HexesDiffer [] list, λ k. dedupe-with_hex k [] list)

  -- The similar colors on a page are at most six, have different hexes, and are each a match of less
  -- than 100 whose hex, whatever its case, is not that of the color itself.
  pub shown_similar_lem :
      (hex : Text) (entries : List OsEntry) (slug : Text)
      → (length (shown_similar fl hex entries slug) ≤ 6)
        × HexesDiffer (shown_similar fl hex entries slug)
        × All
            (λ s.
              (fl.lt s.match (fl.num 100)
                && not (text_eq (to_lower_case s.hex) (to_lower_case hex)))
              ≡ true)
            (shown_similar fl hex entries slug)
  unfolding shown_similar
  shown_similar_lem hex entries slug =
      let near = dedupe_similar_by_hex fl (similar_colors fl hex entries slug 24) in
      let shown = λ (s : SimilarColor fl).
        fl.lt s.match (fl.num 100) && not (text_eq (to_lower_case s.hex) (to_lower_case hex)) in
      (
        length-take-le 6 (filter shown near),
        take-HexesDiffer 6 (filter shown near) (
            filter-HexesDiffer shown near
              (dedupe_similar_by_hex_lem (similar_colors fl hex entries slug 24)).0),
        All-take _ 6 (filter shown near) (All-filter shown near),
      )
