-- ===== src/Detail/Select.antt =====
-- The color that a page starts on.
use desktopcolors.Common.{
  List, [], ◌∷◌, some, Bool, true, false, ◌≡◌, refl, sym, ap, ◌∙◌, arith, Text, text_eq_iff,
  text_eq_refl, to_lower_case, find?, lookup, Bool-cases, inl, inr, is_empty,
}
use desktopcolors.Detail.Defs.{
  DetailColor, OsDetailView, OsDetailBootstrap, has_hex, choose, pick_color_detail, started,
  bootstrap_from_view,
}

find?-holds : {A : Type 0} (p : A → Bool) (xs : List A) {x : A} → find? p xs ≡ some x → p x ≡ true
find?-holds p [] h = cc h
find?-holds p (y ∷ ys) {x = x} h = elim (Bool-cases (p y)) [
  | inl e ↦ let same : y ≡ x = ground (arith, h, e) in ap p (sym same) ∙ e
  | inr e ↦ find?-holds p ys (ground (arith, h, e))
]

module _ {F : Type 0} where
  choose-hex :
      (colors : List (DetailColor F)) (hex : Text) (c : DetailColor F)
      → is_empty hex ≡ false
      → find? (has_hex hex) colors ≡ some c
      → choose colors (some hex) ≡ some c
  unfolding choose
  choose-hex colors [] c h e = cc h
  choose-hex colors (x ∷ hex) c h e = rw (e, choose) refl

  -- On the page of a color that the system has, in whatever case the hex is written, the browser starts
  -- with the detail of the first color with the hex, and finds it under the hex in lower case. The code
  -- does not throw.
  pub bootstrap_from_view_hex :
      (view : OsDetailView F) (hex : Text) (c : DetailColor F)
      → is_empty hex ≡ false
      → find? (has_hex hex) view.colors ≡ some c
      → (b : OsDetailBootstrap F) × (bootstrap_from_view view (some hex) ≡ some b)
        × (lookup (to_lower_case hex) b.details_by_hex ≡ some (pick_color_detail c))
  unfolding bootstrap_from_view started lookup
  bootstrap_from_view_hex view hex c h e =
      let same =
        (text_eq_iff (to_lower_case c.color.hex) (to_lower_case hex)).0
          (find?-holds (has_hex hex) view.colors e) in
      (
        started view (some hex) c,
        rw (choose-hex view.colors hex c h e, bootstrap_from_view) refl,
        rw (same, text_eq_refl) refl,
      )
