-- ===== src/Controls/Laws.antt =====
-- What the platforms page shows.
use mathlib.Core.List.{Perm}
use desktopcolors.Common.{
  ℕ, ◌≤◌, List, [], ◌∷◌, ◌++◌, Bool, true, false, ◌≡◌, refl, sym, ap, subst, ltb_neg_trans, ◌∙◌,
  arith, Text, to_lower_case, trim, ltb, All, All-map, sort, sort-perm, IsSorted, sort-IsSorted,
  IsWeakOrder, All-unit, Bool-cases, inl, inr,
}
use desktopcolors.Controls.Search.{Mentions, searched_lem}
use desktopcolors.Controls.Defs.{
  PlatformItem, SortKey, popular, by_year, alpha, newest, Sign, below, level, above, is_below,
  negated, difference, Controls, searched, compare_by, comes_before, shown,
}

-- a consistent comparison
pub record IsComparison {A : Type 0} (cmp : A → A → Sign) : Type 0 where
  pub flip : (a b : A) → cmp b a ≡ negated (cmp a b)
  pub neg_trans :
      (a b c : A)
      → is_below (cmp a b) ≡ false
      → is_below (cmp b c) ≡ false
      → is_below (cmp a c) ≡ false

is_below-difference : (a b : ℕ) → is_below (difference a b) ≡ ltb a b
is_below-difference a b = elim (Bool-cases (ltb a b)) [
  | inl e ↦ rw e refl
  | inr e ↦ rw e (elim (Bool-cases (ltb b a)) [ inl f ↦ rw f refl | inr f ↦ rw f refl ])
]

difference-flip : (a b : ℕ) → difference b a ≡ negated (difference a b)
difference-flip a b = elim (Bool-cases (ltb a b)) [
  | inl e ↦ let f : ltb b a ≡ false = ground (arith, e) in rw (e, f) refl
  | inr e ↦ rw e (elim (Bool-cases (ltb b a)) [ inl f ↦ rw f refl | inr f ↦ rw f refl ])
]

difference-neg_trans :
    (a b c : ℕ)
    → is_below (difference a b) ≡ false
    → is_below (difference b c) ≡ false
    → is_below (difference a c) ≡ false
difference-neg_trans a b c h k =
    let h' = sym (is_below-difference a b) ∙ h in
    let k' = sym (is_below-difference b c) ∙ k in
    is_below-difference a c ∙ ltb_neg_trans a b c h' k'

pub difference-IsComparison : IsComparison difference
difference-IsComparison = record { flip = difference-flip; neg_trans = difference-neg_trans }

module _ {A B : Type 0} (cmp : A → A → Sign) (w : IsComparison cmp) where
  pub on-IsComparison : (f : B → A) → IsComparison (λ a b. cmp (f a) (f b))
  on-IsComparison f = record {
    flip = λ a b. w.flip (f a) (f b);
    neg_trans = λ a b c. w.neg_trans (f a) (f b) (f c);
  }

  swapped-IsComparison : (f : B → A) → IsComparison (λ a b. cmp (f b) (f a))
  swapped-IsComparison f = record {
    flip = λ a b. w.flip (f b) (f a);
    neg_trans = λ a b c h k. w.neg_trans (f c) (f b) (f a) k h;
  }

opposite : (s : Sign) → is_below s ≡ true → is_below (negated s) ≡ false
opposite below h = refl
opposite level h = refl
opposite above h = cc h

module _ {A : Type 0} (cmp : A → A → Sign) (w : IsComparison cmp) where
  forward-IsWeakOrder : IsWeakOrder (λ a. Unit) (λ a b. is_below (cmp a b))
  forward-IsWeakOrder = record {
    asymm = λ a b h. ap is_below (w.flip a b) ∙ opposite (cmp a b) h;
    neg_trans = λ a b c _. w.neg_trans a b c;
  }

difference_le : (a b : ℕ) → is_below (difference a b) ≡ false → b ≤ a
difference_le a b h = let e = sym (is_below-difference a b) ∙ h in ground (arith, e)

negated_le : (a b : ℕ) → is_below (negated (difference a b)) ≡ false → a ≤ b
negated_le a b h = difference_le b a (ap is_below (difference-flip a b) ∙ h)

module _ (locale_compare : Text → Text → Sign) where
  -- one text stands no later than the other
  abbrev pub NoLater : Text → Text → Type 0
  NoLater s t = is_below (locale_compare t s) ≡ false

  -- the order that the page promises for an item that is shown before another
  abbrev pub InOrder : SortKey → Bool → PlatformItem → PlatformItem → Type 0
  InOrder popular false a b = b.score ≤ a.score
  InOrder popular true a b = a.score ≤ b.score
  InOrder by_year false a b = a.year ≤ b.year
  InOrder by_year true a b = b.year ≤ a.year
  InOrder newest false a b = NoLater b.added a.added
  InOrder newest true a b = NoLater a.added b.added
  InOrder alpha false a b = NoLater a.name b.name
  InOrder alpha true a b = NoLater b.name a.name

  abbrev pub AllInOrder : SortKey → Bool → List PlatformItem → Type 0
  AllInOrder key rev [] = Unit
  AllInOrder key rev (a ∷ items) = All (InOrder key rev a) items × AllInOrder key rev items

module _ (locale_compare : Text → Text → Sign) (w : IsComparison locale_compare) where
  compare_by-IsComparison : (key : SortKey) → IsComparison (compare_by locale_compare key)
  unfolding compare_by
  compare_by-IsComparison popular =
      swapped-IsComparison difference difference-IsComparison (λ a. a.score)
  compare_by-IsComparison by_year = on-IsComparison difference difference-IsComparison (λ a. a.year)
  compare_by-IsComparison newest = swapped-IsComparison locale_compare w (λ a. a.added)
  compare_by-IsComparison alpha = on-IsComparison locale_compare w (λ a. a.name)

  comes_before-IsWeakOrder :
      (key : SortKey) (rev : Bool)
      → IsWeakOrder (λ (a : PlatformItem). Unit) (comes_before locale_compare key rev)
  unfolding comes_before
  comes_before-IsWeakOrder key false =
      forward-IsWeakOrder (compare_by locale_compare key) (compare_by-IsComparison key)
  comes_before-IsWeakOrder key true =
      let c = compare_by-IsComparison key in
      subst (IsWeakOrder (λ a. Unit)) (λ i a b. is_below (c.flip a b i))
        (forward-IsWeakOrder (λ a b. compare_by locale_compare key b a)
          (swapped-IsComparison (compare_by locale_compare key) c (λ a. a)))

  InOrder-of :
      (key : SortKey) (rev : Bool) (a b : PlatformItem)
      → comes_before locale_compare key rev b a ≡ false
      → InOrder locale_compare key rev a b
  unfolding comes_before compare_by
  InOrder-of popular false a b h = difference_le a.score b.score h
  InOrder-of popular true a b h = negated_le a.score b.score h
  InOrder-of by_year false a b h = difference_le b.year a.year h
  InOrder-of by_year true a b h = negated_le b.year a.year h
  InOrder-of newest false a b h = h
  InOrder-of newest true a b h = ap is_below (w.flip a.added b.added) ∙ h
  InOrder-of alpha false a b h = h
  InOrder-of alpha true a b h = ap is_below (w.flip b.name a.name) ∙ h

  AllInOrder-of :
      (key : SortKey) (rev : Bool) (items : List PlatformItem)
      → IsSorted (comes_before locale_compare key rev) items
      → AllInOrder locale_compare key rev items
  AllInOrder-of key rev [] h = tt
  AllInOrder-of key rev (a ∷ items) h =
      (All-map (InOrder-of key rev a) items h.0, AllInOrder-of key rev items h.1)

  -- Where `localeCompare` compares consistently, the page shows the items in which the query occurs,
  -- each once, and leaves out only items in which it does not: in the name, the family, the default
  -- hex, or the name or hex of another color, with white space around the query and capitals left out
  -- of account. They stand in the order of the sort that is selected and of its direction: by score,
  -- by year, by the date they were added or by name.
  pub shown_lem :
      (items : List PlatformItem) (st : Controls)
      → (found left_out : List PlatformItem) × Perm (shown locale_compare items st) found
        × Perm items (found ++ left_out)
        × All (Mentions (to_lower_case (trim st.query))) found
        × All (λ it. ¬ (Mentions (to_lower_case (trim st.query)) it)) left_out
        × AllInOrder locale_compare st.sort_key st.rev (shown locale_compare items st)
  unfolding shown
  shown_lem items st =
      let lt = comes_before locale_compare st.sort_key st.rev in
      let found = searched st.query items in
      let (left_out, all_there, hits, misses) = searched_lem st.query items in
      (
        found,
        left_out,
        sort-perm lt found,
        all_there,
        hits,
        misses,
        AllInOrder-of st.sort_key st.rev (sort lt found) (
            sort-IsSorted (λ a. Unit) lt (comes_before-IsWeakOrder st.sort_key st.rev) found
              (All-unit found)),
      )
