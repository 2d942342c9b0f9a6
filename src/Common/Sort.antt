-- ===== src/Common/Sort.antt =====
-- `Array.prototype.sort`: a stable sort by a comparator, which is given by its test "is negative".
-- The result is the one ordered rearrangement that keeps equal elements in their order.
use Prim.Native.Nat.{ℕ, zero, suc, ◌+◌}
use mathlib.Core.Path.{◌≡◌, refl}
use mathlib.Core.Bool.{Bool, true, false}
use mathlib.Core.List.{List, [], ◌∷◌, Perm}
use mathlib.Core.List.Perm
use mathlib.Core.Logic.{inl, inr}
use native.Mathlib.Omega.{arith}
use desktopcolors.Common.Decide.{if◌then◌else◌, Bool-cases, ltb, ltb_asymm, ltb_neg_trans}
use desktopcolors.Common.Lists.{length, All, All-map, All-take, All-drop, filter, take, drop}

module _ {ℓ} {A : Type ℓ} where
  unfoldable pub insert : (A → A → Bool) → A → List A → List A
  insert lt x [] = x ∷ []
  insert lt x (y ∷ ys) = let later = y ∷ insert lt x ys in if lt y x then later else x ∷ y ∷ ys

  -- `xs.sort(cmp)` with `lt a b` for `cmp(a, b) < 0`
  unfoldable pub sort : (A → A → Bool) → List A → List A
  unfolding insert
  sort lt [] = []
  sort lt (x ∷ xs) = insert lt x (sort lt xs)

  -- no element comes before an earlier one
  abbrev pub IsSorted : (A → A → Bool) → List A → Type 0
  IsSorted lt [] = Unit
  IsSorted lt (x ∷ xs) = All (λ y. lt y x ≡ false) xs × IsSorted lt xs

  -- What a comparator promises for the elements with `P`: `a < b` excludes `b < a`, and "not less"
  -- is transitive over such an element.
  pub record IsWeakOrder (P : A → Type 0) (lt : A → A → Bool) : Type ℓ where
    pub asymm : (a b : A) → lt a b ≡ true → lt b a ≡ false
    pub neg_trans : (a b c : A) → P b → lt a b ≡ false → lt b c ≡ false → lt a c ≡ false

  pub insert-perm : (lt : A → A → Bool) (x : A) (xs : List A) → Perm (insert lt x xs) (x ∷ xs)
  unfolding insert
  insert-perm lt x [] = Perm.rfl
  insert-perm lt x (y ∷ ys) = elim (Bool-cases (lt y x)) [
    | inl e ↦ rw e (Perm.trans (Perm.cons y (insert-perm lt x ys)) (Perm.swap x y ys))
    | inr e ↦ rw e Perm.rfl
  ]

  pub sort-perm : (lt : A → A → Bool) (xs : List A) → Perm (sort lt xs) xs
  unfolding sort
  sort-perm lt [] = Perm.rfl
  sort-perm lt (x ∷ xs) = Perm.trans (insert-perm lt x (sort lt xs)) (Perm.cons x (sort-perm lt xs))

  pub insert-All :
      (P : A → Type 0) (lt : A → A → Bool) (x : A) (xs : List A)
      → P x
      → All P xs
      → All P (insert lt x xs)
  unfolding insert
  insert-All P lt x [] p h = (p, tt)
  insert-All P lt x (y ∷ ys) p h = elim (Bool-cases (lt y x)) [
    | inl e ↦ rw e (h.0, insert-All P lt x ys p h.1)
    | inr e ↦ rw e (p, h)
  ]

  -- sorting keeps what holds of every element
  pub sort-All : (P : A → Type 0) (lt : A → A → Bool) (xs : List A) → All P xs → All P (sort lt xs)
  unfolding sort
  sort-All P lt [] h = tt
  sort-All P lt (x ∷ xs) h = insert-All P lt x (sort lt xs) h.0 (sort-All P lt xs h.1)

  module _ (P : A → Type 0) (lt : A → A → Bool) (w : IsWeakOrder P lt) where
    insert-IsSorted :
        (x : A) (xs : List A) → All P xs → IsSorted lt xs → IsSorted lt (insert lt x xs)
    unfolding insert
    insert-IsSorted x [] h s = (tt, tt)
    insert-IsSorted x (y ∷ ys) h s = elim (Bool-cases (lt y x)) [
      | inl e ↦ rw e (
        insert-All (λ z. lt z y ≡ false) lt x ys (w.asymm y x e) s.0,
        insert-IsSorted x ys h.1 s.1,
      )
      | inr e ↦ rw e ((e, All-map (λ z k. w.neg_trans z y x h.0 k e) ys s.0), s)
    ]

    -- sorting by such a comparator puts the elements in order
    pub sort-IsSorted : (xs : List A) → All P xs → IsSorted lt (sort lt xs)
    unfolding sort
    sort-IsSorted [] h = tt
    sort-IsSorted (x ∷ xs) h =
        insert-IsSorted x (sort lt xs) (sort-All P lt xs h.1) (sort-IsSorted xs h.1)

  length-insert :
      (lt : A → A → Bool) (x : A) (xs : List A) → length (insert lt x xs) ≡ length xs + 1
  unfolding insert
  length-insert lt x [] = omega arith
  length-insert lt x (y ∷ ys) = elim (Bool-cases (lt y x)) [
    | inl e ↦ rw e (omega (arith, length-insert lt x ys))
    | inr e ↦ rw e (omega arith)
  ]

  pub length-sort : (lt : A → A → Bool) (xs : List A) → length (sort lt xs) ≡ length xs
  unfolding sort
  length-sort lt [] = refl
  length-sort lt (x ∷ xs) = omega (arith, length-insert lt x (sort lt xs), length-sort lt xs)

  -- the sort is stable: in each class of elements that it does not tell apart the order is kept
  insert-filter_of_false :
      (lt : A → A → Bool) (p : A → Bool) (x : A) (xs : List A)
      → p x ≡ false
      → filter p (insert lt x xs) ≡ filter p xs
  unfolding insert
  insert-filter_of_false lt p x [] e = rw e
  insert-filter_of_false lt p x (y ∷ ys) e = ground (arith, insert-filter_of_false lt p x ys e)

  insert-filter_of_true :
      (lt : A → A → Bool) (p : A → Bool) (x : A) (xs : List A)
      → p x ≡ true
      → ((y : A) → p y ≡ true → lt y x ≡ false)
      → filter p (insert lt x xs) ≡ x ∷ filter p xs
  unfolding insert
  insert-filter_of_true lt p x [] e f = rw e
  insert-filter_of_true lt p x (y ∷ ys) e f =
      ground (arith, insert-filter_of_true lt p x ys e f, f y)

  pub sort_stable :
      (lt : A → A → Bool) (p : A → Bool) (xs : List A)
      → ((x y : A) → p x ≡ true → p y ≡ true → lt x y ≡ false)
      → filter p (sort lt xs) ≡ filter p xs
  unfolding sort
  sort_stable lt p [] f = refl
  sort_stable lt p (x ∷ xs) f = elim (Bool-cases (p x)) [
    | inl e ↦
        rw
          (e, insert-filter_of_true lt p x (sort lt xs) e (λ y h. f y x h e), sort_stable lt p xs f)
    | inr e ↦ rw (e, insert-filter_of_false lt p x (sort lt xs) e, sort_stable lt p xs f)
  ]

  -- each element of the front of a sorted list is no later than what stands behind it
  pub IsSorted-take :
      (lt : A → A → Bool) (n : ℕ) (xs : List A) → IsSorted lt xs → IsSorted lt (take n xs)
  IsSorted-take lt zero xs s = tt
  IsSorted-take lt (suc n) [] s = tt
  IsSorted-take lt (suc n) (x ∷ xs) s = (All-take _ n xs s.0, IsSorted-take lt n xs s.1)

  pub IsSorted-drop :
      (lt : A → A → Bool) (n : ℕ) (xs : List A)
      → IsSorted lt xs
      → All (λ x. All (λ y. lt y x ≡ false) (drop n xs)) (take n xs)
  IsSorted-drop lt zero xs s = tt
  IsSorted-drop lt (suc n) [] s = tt
  IsSorted-drop lt (suc n) (x ∷ xs) s = (All-drop _ n xs s.0, IsSorted-drop lt n xs s.1)

-- years, counts and other numbers in rising order, by a key
pub key-IsWeakOrder {ℓ} :
    {A : Type ℓ} (key : A → ℕ) → IsWeakOrder (λ a. Unit) (λ a b. ltb (key a) (key b))
key-IsWeakOrder key = record {
  asymm = λ a b. ltb_asymm (key a) (key b);
  neg_trans = λ a b c _. ltb_neg_trans (key a) (key b) (key c);
}

-- the elements of any list have the empty property
pub All-unit {ℓ} : {A : Type ℓ} (xs : List A) → All (λ (x : A). Unit) xs
All-unit [] = tt
All-unit (x ∷ xs) = (tt, All-unit xs)
