-- ===== src/Common/Strings.antt =====
-- Strings of JavaScript as lists of UTF-16 code units, and the methods that the sources call.
use Prim.Native.Char.{code}
use Prim.Native.String.{String}
use Prim.Native.Nat.{ℕ, ◌+◌}
use mathlib.Core.Path.{◌≡◌, refl, ◌∙◌, sym, ap}
use mathlib.Core.Logic.{◌↔◌}
use mathlib.Core.Bool.{Bool, true, false, not, ◌&&◌, ◌||◌}
use mathlib.Core.List.{List, [], ◌∷◌, ◌++◌, reverse, reverse_aux}
use native.Mathlib.Omega.{arith}
use desktopcolors.Common.Decide.{if◌then◌else◌, ◌==◌, leb}

abbrev pub Text : Type 0
Text = List ℕ

-- the code units of a literal, whose characters lie in the basic plane
abbrev pub codes : String → Text
codes String.[] = []
codes (String.◌∷◌ c s) = code c ∷ codes s

-- `a === b`
unfoldable pub text_eq : Text → Text → Bool
text_eq [] [] = true
text_eq (a ∷ s) (b ∷ t) = a == b && text_eq s t
text_eq _ _ = false

pub text_eq_iff : (s t : Text) → (text_eq s t ≡ true) ↔ (s ≡ t)
unfolding text_eq
text_eq_iff [] [] = (λ _. refl, λ _. refl)
text_eq_iff (a ∷ s) (b ∷ t) = ground (arith, text_eq_iff s t)
text_eq_iff [] (b ∷ t) = ground arith
text_eq_iff (a ∷ s) [] = ground arith

pub text_eq_refl : (s : Text) → text_eq s s ≡ true
text_eq_refl s = (text_eq_iff s s).1 refl

pub text_eq_comm : (s t : Text) → text_eq s t ≡ text_eq t s
unfolding text_eq
text_eq_comm [] [] = refl
text_eq_comm (a ∷ s) (b ∷ t) = ground (arith, text_eq_comm s t)
text_eq_comm [] (b ∷ t) = refl
text_eq_comm (a ∷ s) [] = refl

-- `toLowerCase` of one code unit; the capital letters are those of ASCII and Latin-1
unfoldable pub lower_unit : ℕ → ℕ
lower_unit c =
    if (leb b'A' c && leb c b'Z') || (leb 0xc0 c && leb c 0xde && not (c == 0xd7))
    then c + 32
    else c

pub lower_unit_idem : (c : ℕ) → lower_unit (lower_unit c) ≡ lower_unit c
unfolding lower_unit
lower_unit_idem c = ground arith

-- `s.toLowerCase()`
unfoldable pub to_lower_case : Text → Text
unfolding lower_unit
to_lower_case [] = []
to_lower_case (c ∷ s) = lower_unit c ∷ to_lower_case s

pub to_lower_case_idem : (s : Text) → to_lower_case (to_lower_case s) ≡ to_lower_case s
unfolding to_lower_case
to_lower_case_idem [] = refl
to_lower_case_idem (c ∷ s) = cc (lower_unit_idem c, to_lower_case_idem s)

-- the white space and line ends of ECMAScript
unfoldable pub is_space : ℕ → Bool
is_space c =
    (leb 9 c && leb c 13)
    || c == 32
    || c == 0xa0
    || c == 0x1680
    || (leb 0x2000 c && leb c 0x200a)
    || c == 0x2028
    || c == 0x2029
    || c == 0x202f
    || c == 0x205f
    || c == 0x3000
    || c == 0xfeff

unfoldable pub trim_start : Text → Text
unfolding is_space
trim_start [] = []
trim_start (c ∷ s) = let rest = trim_start s in if is_space c then rest else c ∷ s

-- `s.trim()`
unfoldable pub trim : Text → Text
unfolding trim_start
trim s = reverse (trim_start (reverse (trim_start s)))

-- `s.startsWith(q)`
unfoldable pub starts_with : Text → Text → Bool
starts_with s [] = true
starts_with [] (b ∷ q) = false
starts_with (a ∷ s) (b ∷ q) = a == b && starts_with s q

-- `s.includes(q)`
unfoldable pub includes : Text → Text → Bool
unfolding starts_with
includes [] q = starts_with [] q
includes (a ∷ s) q = starts_with (a ∷ s) q || includes s q

-- `parts.join(sep)`
unfoldable pub join : List Text → Text → Text
join [] sep = []
join (p ∷ []) sep = p
join (p ∷ q ∷ ps) sep = p ++ (sep ++ join (q ∷ ps) sep)

-- trimming and lower case go together
is_space-lower_unit : (c : ℕ) → is_space (lower_unit c) ≡ is_space c
unfolding is_space lower_unit
is_space-lower_unit c = ground arith

trim_start-to_lower_case : (s : Text) → trim_start (to_lower_case s) ≡ to_lower_case (trim_start s)
unfolding trim_start to_lower_case
trim_start-to_lower_case [] = refl
trim_start-to_lower_case (c ∷ s) = ground (arith, is_space-lower_unit c, trim_start-to_lower_case s)

to_lower_case-reverse_aux :
    (s t : Text) → to_lower_case (reverse_aux s t) ≡ reverse_aux (to_lower_case s) (to_lower_case t)
unfolding to_lower_case
to_lower_case-reverse_aux [] t = refl
to_lower_case-reverse_aux (c ∷ s) t = to_lower_case-reverse_aux s (c ∷ t)

to_lower_case-reverse : (s : Text) → to_lower_case (reverse s) ≡ reverse (to_lower_case s)
unfolding to_lower_case
to_lower_case-reverse s = to_lower_case-reverse_aux s []

pub trim-to_lower_case : (s : Text) → trim (to_lower_case s) ≡ to_lower_case (trim s)
unfolding trim
trim-to_lower_case s =
    ap (λ t. reverse (trim_start (reverse t))) (trim_start-to_lower_case s)
    ∙ ap (λ t. reverse (trim_start t)) (sym (to_lower_case-reverse (trim_start s)))
    ∙ ap reverse (trim_start-to_lower_case (reverse (trim_start s)))
    ∙ sym (to_lower_case-reverse (trim_start (reverse (trim_start s))))
