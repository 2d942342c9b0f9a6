-- ===== src/Explorer/Steps.antt =====
-- The steps of the fullscreen preview in islands/Colors.tsx.
use native.Mathlib.Nat.{mod-lt, mod-eq_of_lt, add-mul-mod_self_left}
use desktopcolors.Common.{
  ℕ, zero, suc, ◌+◌, ◌-◌, ◌%◌, ◌<◌, ◌≡◌, ◌⊎◌, inl, inr, ap, subst, ◌∙◌, arith,
}
use desktopcolors.Explorer.Defs.{forward, back, step_index}

wrap : (m n : ℕ) → m < n → (m + n) % n ≡ m
wrap m n h = ap (λ k. (m + k) % n) (omega arith) ∙ add-mul-mod_self_left m n 1 ∙ mod-eq_of_lt h

pub forward_inside : (i n : ℕ) → i + 1 < n → step_index forward i n ≡ i + 1
unfolding step_index
forward_inside i n h = wrap (i + 1) n h

pub forward_last : (i : ℕ) → step_index forward i (i + 1) ≡ 0
unfolding step_index
forward_last i =
    ap (λ k. k % (i + 1)) (omega arith)
    ∙ add-mul-mod_self_left 0 (i + 1) 2
    ∙ mod-eq_of_lt (omega arith)

back_inside : (i n : ℕ) → i + 1 < n → step_index back (i + 1) n ≡ i
unfolding step_index
back_inside i n h = ap (λ k. k % n) (omega arith) ∙ wrap i n (omega (arith, h))

back_first : (i : ℕ) → step_index back 0 (i + 1) ≡ i
unfolding step_index
back_first i = ap (λ k. k % (i + 1)) (omega arith) ∙ mod-eq_of_lt (omega arith)

inside_or_last : (i n : ℕ) → i < n → (i + 1 < n) ⊎ (n ≡ i + 1)
inside_or_last i n h = omega (arith, h)

there_and_back : (i n : ℕ) → i < n → step_index back (step_index forward i n) n ≡ i
there_and_back i n h = elim (inside_or_last i n h) [
  | inl k ↦ ap (λ j. step_index back j n) (forward_inside i n k) ∙ back_inside i n k
  | inr e ↦ rw e (ap (λ j. step_index back j (i + 1)) (forward_last i) ∙ back_first i)
]

back_and_there : (i n : ℕ) → i < n → step_index forward (step_index back i n) n ≡ i
back_and_there zero zero h = absurd (omega (arith, h))
back_and_there zero (suc n) h =
    let e : n + 1 ≡ suc n = omega arith in
    subst (λ k. step_index forward (step_index back 0 k) k ≡ 0) e
      (ap (λ j. step_index forward j (n + 1)) (back_first n) ∙ forward_last n)
back_and_there (suc i) n h =
    let k : i + 1 < n = omega (arith, h) in
    let e : i + 1 ≡ suc i = omega arith in
    subst (λ j. step_index forward (step_index back j n) n ≡ j) e
      (ap (λ j. step_index forward j n) (back_inside i n k) ∙ forward_inside i n k)

-- In a list of `n` colors, a step forward and a step back lead to a place of the list, and each undoes the
-- other, also past the ends.
pub step_index_lem :
    (idx n : ℕ)
    → idx < n
    → (step_index back (step_index forward idx n) n ≡ idx)
      × (step_index forward (step_index back idx n) n ≡ idx)
      × (step_index forward idx n < n)
      × (step_index back idx n < n)
unfolding step_index
step_index_lem idx n h = (
  there_and_back idx n h,
  back_and_there idx n h,
  mod-lt (idx + 1 + n) (omega (arith, h)),
  mod-lt (idx + n - 1) (omega (arith, h)),
)
