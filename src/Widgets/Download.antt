-- ===== src/Widgets/Download.antt =====
-- islands/DownloadSheet.tsx: the picture that is drawn and saved, and the sizes that the sheet offers.
use desktopcolors.Common.{
  ℕ, suc, ◌≤◌, List, [], ◌∷◌, ◌++◌, map, Option, none, some, Bool, true, false, ◌&&◌, ◌≡◌, refl,
  arith, Text, codes, if◌then◌else◌, All, All-append, Bool-cases, Option-cases, inl, inr,
}
use desktopcolors.Catalog.{Outcome, throws, returns}
use desktopcolors.Wallpaper.Defs.{
  ResolutionGroup, resolution_groups, min_dim, max_dim, parse_dimension, wallpaper_filename,
}
use desktopcolors.Wallpaper.Dimension.{parse_dimension_bounds}
use desktopcolors.Track.Defs.{TrackEvent, download}

-- what the code asks of the browser, in order
pub data Effect : Type 0 where
  create_canvas : ℕ → ℕ → Effect
  fill : Text → ℕ → ℕ → Effect
  create_url : Effect
  set_link : Text → Effect
  append_link click_link remove_link revoke_url : Effect
  tracked : TrackEvent → Effect

-- whether the canvas has a 2D context, and whether it becomes a PNG
pub record Canvas : Type 0 where
  pub has_context : Bool
  pub makes_blob : Bool

-- the effects, and whether the promise resolves
abbrev pub Run : Type 0
Run = List Effect × Outcome (Unit {0})

unfoldable pub generate_wallpaper : Canvas → Text → ℕ → ℕ → Run
generate_wallpaper c hex w h =
    if c.has_context
    then (
      create_canvas w h ∷ fill hex w h ∷ [],
      if c.makes_blob then returns tt else throws (codes "toBlob failed"),
    )
    else (create_canvas w h ∷ [], throws (codes "Canvas 2D context unavailable"))

abbrev saved : List Effect → Outcome (Unit {0}) → List Effect → Run
saved effects (throws message) later = (effects, throws message)
saved effects (returns u) later = (effects ++ later, returns tt)

unfoldable pub download_wallpaper : Canvas → Text → Text → Text → ℕ → ℕ → Run
unfolding generate_wallpaper
download_wallpaper c os_slug color_name hex w h =
    let (effects, blob) = generate_wallpaper c hex w h in
    saved effects blob (
      create_url
      ∷ set_link (wallpaper_filename os_slug color_name hex w h)
      ∷ append_link
      ∷ click_link
      ∷ remove_link
      ∷ revoke_url
      ∷ tracked (download hex os_slug)
      ∷ [])

-- the two fields of the sheet
pub record Sheet : Type 0 where
  pub cw : Text
  pub ch : Text

abbrev both : Option ℕ → Option ℕ → Option (ℕ × ℕ)
both (some w) (some h) = some (w, h)
both (some w) none = none
both none h = none

-- the size that the button "Get" asks for, where it is enabled
unfoldable pub custom_size : Sheet → Option (ℕ × ℕ)
custom_size st = both (parse_dimension st.cw) (parse_dimension st.ch)

abbrev sizes_of : List ResolutionGroup → List (ℕ × ℕ)
sizes_of [] = []
sizes_of (g ∷ gs) = map (λ it. (it.w, it.h)) g.items ++ sizes_of gs

abbrev optional_size : Option (ℕ × ℕ) → List (ℕ × ℕ)
optional_size none = []
optional_size (some size) = size ∷ []

-- every size that a button of the sheet asks for
unfoldable pub offered : Sheet → List (ℕ × ℕ)
unfolding custom_size resolution_groups
offered st = sizes_of resolution_groups ++ optional_size (custom_size st)

abbrev pub count_effects : (Effect → Bool) → List Effect → ℕ
count_effects p [] = 0
count_effects p (e ∷ es) = if p e then suc (count_effects p es) else count_effects p es

abbrev pub is_create_url : Effect → Bool
is_create_url create_url = true
is_create_url _ = false

abbrev pub is_revoke_url : Effect → Bool
is_revoke_url revoke_url = true
is_revoke_url _ = false

abbrev pub is_append : Effect → Bool
is_append append_link = true
is_append _ = false

abbrev pub is_remove : Effect → Bool
is_remove remove_link = true
is_remove _ = false

abbrev pub is_click : Effect → Bool
is_click click_link = true
is_click _ = false

abbrev pub is_tracked : Effect → Bool
is_tracked (tracked e) = true
is_tracked _ = false

abbrev pub succeeds : Outcome (Unit {0}) → ℕ
succeeds (throws message) = 0
succeeds (returns u) = 1

-- Whether the download succeeds or fails, every object URL is revoked and every link removed from the page;
-- one link is clicked and one download counted where it succeeds, and none where it fails; and it succeeds
-- exactly where the canvas has a context and becomes a PNG.
pub download_wallpaper_lem :
    (c : Canvas) (os_slug color_name hex : Text) (w h : ℕ)
    → let run = download_wallpaper c os_slug color_name hex w h in
      (count_effects is_create_url run.0 ≡ count_effects is_revoke_url run.0)
      × (count_effects is_append run.0 ≡ count_effects is_remove run.0)
      × (count_effects is_click run.0 ≡ succeeds run.1)
      × (count_effects is_tracked run.0 ≡ succeeds run.1)
      × (succeeds run.1 ≡ (if c.has_context && c.makes_blob then 1 else 0))
unfolding download_wallpaper
download_wallpaper_lem c os_slug color_name hex w h = elim (Bool-cases c.has_context) [
  | inr e ↦ rw e (refl, refl, refl, refl, refl)
  | inl e ↦ elim (Bool-cases c.makes_blob) [
    | inl f ↦ rw (e, f) (refl, refl, refl, refl, refl)
    | inr f ↦ rw (e, f) (refl, refl, refl, refl, refl)
  ]
]

abbrev pub IsSize : ℕ × ℕ → Type 0
IsSize (w, h) = (min_dim ≤ w) × (w ≤ max_dim) × (min_dim ≤ h) × (h ≤ max_dim)

custom-IsSize : (st : Sheet) → All IsSize (optional_size (custom_size st))
unfolding custom_size
custom-IsSize st = elim (Option-cases (parse_dimension st.cw)) [
  | inl e ↦ rw e tt
  | inr (w, e) ↦ elim (Option-cases (parse_dimension st.ch)) [
    | inl f ↦ rw (e, f) tt
    | inr (h, f) ↦
        let (a, b, _, _, _) = parse_dimension_bounds st.cw w e in
        let (c, d, _, _, _) = parse_dimension_bounds st.ch h f in rw (e, f) ((a, b, c, d), tt)
  ]
]

-- Whatever is typed into its fields, the sheet asks only for pictures from 1 to 10000 pixels wide and high.
pub offered-IsSize : (st : Sheet) → All IsSize (offered st)
unfolding offered
offered-IsSize st =
    All-append IsSize (sizes_of resolution_groups) (optional_size (custom_size st)) (omega arith)
      (custom-IsSize st)
