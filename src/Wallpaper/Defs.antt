-- ===== src/Wallpaper/Defs.antt =====
-- The definitions of lib/wallpaper.ts.
use desktopcolors.Common.{
  ℕ, List, [], ◌∷◌, ◌++◌, Option, none, some, Bool, true, false, not, ◌&&◌, ◌||◌, Text, codes,
  to_lower_case, trim, show, is_digit, digits_value, if◌then◌else◌, ltb, leb, ◌==◌, all, is_empty,
}
use mathlib.Core.List.{reverse}

pub record ResolutionItem : Type 0 where
  pub w : ℕ
  pub h : ℕ
  pub label : Text

pub record ResolutionGroup : Type 0 where
  pub label : Text
  pub items : List ResolutionItem

unfoldable pub mk : ℕ → ℕ → ResolutionItem
mk w h = record { w = w; h = h; label = show w ++ (codes "×" ++ show h) }

unfoldable pub resolution_groups : List ResolutionGroup
unfolding mk
resolution_groups =
    record {
      label = codes "Desktop";
      items = mk 1280 720 ∷ mk 1920 1080 ∷ mk 2560 1440 ∷ mk 3840 2160 ∷ [];
    }
    ∷ record {
      label = codes "Mobile";
      items = mk 1170 2532 ∷ mk 1080 2400 ∷ mk 1284 2778 ∷ mk 1440 3120 ∷ [];
    }
    ∷ record { label = codes "Classic"; items = mk 640 480 ∷ mk 800 600 ∷ mk 1024 768 ∷ [] }
    ∷ []

abbrev pub min_dim : ℕ
min_dim = 1

abbrev pub max_dim : ℕ
max_dim = 10000

-- `[a-z0-9]`
abbrev pub is_alnum : ℕ → Bool
is_alnum c = (leb b'a' c && leb c b'z') || (leb b'0' c && leb c b'9')

-- `replace(/[^a-z0-9]+/g, "-")`; `inside` says that the run so far has its dash
unfoldable pub dashed : Bool → Text → Text
dashed inside [] = []
dashed inside (c ∷ s) =
    let keep = c ∷ dashed false s in
    let rest = dashed true s in if is_alnum c then keep else (if inside then rest else b'-' ∷ rest)

-- `replace(/^-+/, "")`
unfoldable pub strip_dashes : Text → Text
strip_dashes [] = []
strip_dashes (c ∷ s) = let rest = strip_dashes s in if c == b'-' then rest else c ∷ s

unfoldable pub slug : Text → Text
unfolding dashed strip_dashes
slug s = reverse (strip_dashes (reverse (strip_dashes (dashed false (trim (to_lower_case s))))))

-- `replace("#", "")`: the first one only
unfoldable pub drop_hash : Text → Text
drop_hash [] = []
drop_hash (c ∷ s) = let rest = c ∷ drop_hash s in if c == b'#' then s else rest

unfoldable pub wallpaper_filename : Text → Text → Text → ℕ → ℕ → Text
unfolding slug drop_hash
wallpaper_filename os_slug color_name hex w h =
    slug os_slug
    ++ (codes "-"
        ++ (slug color_name
            ++ (codes "-"
                ++ (to_lower_case (drop_hash hex)
                    ++ (codes "-" ++ (show w ++ (codes "x" ++ (show h ++ codes ".png"))))))))

-- A number of digits is not negative, and past 2 ^ 53, where `Number` rounds, it is above the greatest
-- dimension either way.
unfoldable pub parse_dimension : Text → Option ℕ
unfolding is_digit digits_value
parse_dimension raw =
    let t = trim raw in
    let n = digits_value 0 t in
    if is_empty t || not (all is_digit t)
    then none
    else (if ltb n min_dim || ltb max_dim n then none else some n)
