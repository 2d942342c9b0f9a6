-- ===== src/Page/Liveness.antt =====
-- The fullscreen preview of islands/OsDetail.tsx comes to every color.
use desktopcolors.Common.{
  ℕ, zero, suc, ◌-◌, ◌+◌, ◌<◌, ◌≤◌, Bool, true, ◌≡◌, ◌⊎◌, inl, inr, refl, ap, subst, ◌∙◌, arith,
  length, ◌==◌, Bool-cases,
}
use desktopcolors.Catalog.{OsView}
use desktopcolors.Explorer.Defs.{forward, step_index}
use desktopcolors.Explorer.Steps.{forward_inside, forward_last}
use desktopcolors.Page.Machine.{
  PageState, step_color, sel_changed, set_sel, handle, enabled, Reached, mounted, next,
}

-- the index after some steps forward
abbrev turns : ℕ → ℕ → ℕ → ℕ
turns zero i n = i
turns (suc k) i n = turns k (step_index forward i n) n

turns-add : (a b i n : ℕ) → turns (a + b) i n ≡ turns b (turns a i n) n
turns-add zero b i n = let e : 0 + b ≡ b = omega arith in ap (λ k. turns k i n) e
turns-add (suc a) b i n =
    let e : suc a + b ≡ suc (a + b) = omega arith in
    ap (λ k. turns k i n) e ∙ turns-add a b (step_index forward i n) n

turns_inside : (k i n : ℕ) → i + k < n → turns k i n ≡ i + k
turns_inside zero i n h = omega arith
turns_inside (suc k) i n h =
    ap (λ j. turns k j n) (forward_inside i n (omega (arith, h)))
    ∙ turns_inside k (i + 1) n (omega (arith, h))
    ∙ omega arith

-- to the last place, and one step on to the first
turns_around : (i m : ℕ) → i ≤ m → turns (m - i + 1) i (m + 1) ≡ 0
turns_around i m h =
    turns-add (m - i) 1 i (m + 1)
    ∙ ap (λ j. turns 1 j (m + 1)) (turns_inside (m - i) i (m + 1) (omega (arith, h)))
    ∙ ap (λ j. step_index forward j (m + 1)) (let e : i + (m - i) ≡ m = omega (arith, h) in e)
    ∙ forward_last m

turns_to : (i j n : ℕ) → i < n → j < n → (k : ℕ) × (k < n) × (turns k i n ≡ j)
turns_to i j zero hi hj = absurd (omega (arith, hi))
turns_to i j (suc m) hi hj = elim (before i j) [
  | inl le ↦ (
    j - i,
    omega (arith, le, hj),
    turns_inside (j - i) i (suc m) (omega (arith, le, hj)) ∙ omega (arith, le),
  )
  | inr lt ↦ (
    m - i + 1 + j,
    omega (arith, lt, hi),
    subst (λ n. turns (m - i + 1 + j) i n ≡ j) (let e : m + 1 ≡ suc m = omega arith in e)
        (turns-add (m - i + 1) j i (m + 1)
          ∙ ap (λ p. turns j p (m + 1)) (turns_around i m (omega (arith, hi)))
          ∙ turns_inside j 0 (m + 1) (omega (arith, hj))
          ∙ omega arith),
  )
]
  where
    before : (i j : ℕ) → (i ≤ j) ⊎ (j < i)
    before i j = omega arith

module _ {F : Type 0} (os : OsView) (allowed : Bool) where
  -- pressing "next" some times
  abbrev pub press_next : ℕ → PageState F → PageState F
  press_next zero st = st
  press_next (suc k) st = press_next k (handle os allowed (step_color forward) st)

  set_sel-sel :
      (i : ℕ) (st : PageState F)
      → ((set_sel os allowed i st).sel ≡ i) × ((set_sel os allowed i st).full ≡ st.full)
  unfolding set_sel sel_changed
  set_sel-sel i st = elim (Bool-cases (i == st.sel)) [
    | inl e ↦ rw e (ground arith, refl)
    | inr e ↦ rw e (refl, refl)
  ]

  handle-sel :
      (st : PageState F)
      → ((handle os allowed (step_color forward) st).sel
          ≡ step_index forward st.sel (length os.colors))
        × ((handle os allowed (step_color forward) st).full ≡ st.full)
  unfolding handle
  handle-sel st = set_sel-sel _ st

  press_next-sel :
      (k : ℕ) (st : PageState F) → (press_next k st).sel ≡ turns k st.sel (length os.colors)
  press_next-sel zero st = refl
  press_next-sel (suc k) st =
      press_next-sel k (handle os allowed (step_color forward) st)
      ∙ ap (λ i. turns k i (length os.colors)) (handle-sel st).0

  step_enabled :
      (st : PageState F) → st.full ≡ true → enabled os allowed (step_color forward) st ≡ true
  unfolding enabled
  step_enabled st h = h

  press_next-Reached :
      (k : ℕ) (first st : PageState F)
      → st.full ≡ true
      → Reached os allowed first st
      → Reached os allowed first (press_next k st)
  press_next-Reached zero first st h r = r
  press_next-Reached (suc k) first st h r =
      press_next-Reached k first (handle os allowed (step_color forward) st) ((handle-sel st).1 ∙ h)
        (next (step_color forward) r (step_enabled st h))

  -- From any color that the fullscreen preview shows, pressing "next" fewer times than there are colors comes
  -- to any other, and the page allows each of these steps.
  pub press_next_reaches :
      (st : PageState F) (j : ℕ)
      → st.full ≡ true
      → st.sel < length os.colors
      → j < length os.colors
      → (k : ℕ) × (k < length os.colors)
        × ((press_next k st).sel ≡ j)
        × Reached os allowed st (press_next k st)
  press_next_reaches st j full here there =
      let (k, lt, at) = turns_to st.sel j (length os.colors) here there in
      (k, lt, press_next-sel k st ∙ at, press_next-Reached k st st full mounted)
