-- ===== src/Js/Text.antt =====
-- Strings as lists of UTF-16 units, and the methods of `String.prototype` that the source calls.
pub mod Laws
use mathlib.Core.List.{reverse}
use mathlib.Core.Option
use blockops.Prelude.{
  ℕ, suc, ◌+◌, ◌-◌, Bool, true, false, ◌&&◌, ◌||◌, not, Option, none, some, List, [], ◌∷◌, ◌++◌,
  String, code, take, drop, length, any, leb, ◌==◌, if◌then◌else◌,
}

abbrev pub Text : Type 0
Text = List ℕ

-- The units of a literal: every literal of the source is in the basic plane.
abbrev pub codes : String → Text
codes String.[] = []
codes (String.◌∷◌ c s) = code c ∷ codes s

-- `===`
abbrev pub same_text : Text → Text → Bool
same_text [] [] = true
same_text [] (y ∷ ys) = false
same_text (x ∷ xs) [] = false
same_text (x ∷ xs) (y ∷ ys) = x == y && same_text xs ys

abbrev pub in_range : ℕ → ℕ → ℕ → Bool
in_range lo hi c = leb lo c && leb c hi

-- The white space and line terminators that `trim` and `\s` know.
unfoldable pub is_space : ℕ → Bool
is_space c =
    in_range 9 13 c
    || c == 32
    || c == 160
    || c == 0x1680
    || in_range 0x2000 0x200a c
    || in_range 0x2028 0x2029 c
    || c == 0x202f
    || c == 0x205f
    || c == 0x3000
    || c == 0xfeff

-- `trimStart`
unfoldable pub trim_start : Text → Text
unfolding is_space
trim_start [] = []
trim_start (c ∷ s) = let rest = trim_start s in if is_space c then rest else c ∷ s

unfoldable pub trim : Text → Text
unfolding trim_start
trim s = reverse (trim_start (reverse (trim_start s)))

-- `includes` of one unit
abbrev pub includes_unit : ℕ → Text → Bool
includes_unit c s = any (λ d. d == c) s

abbrev pub starts_with : Text → Text → Bool
starts_with [] s = true
starts_with (c ∷ p) [] = false
starts_with (c ∷ p) (d ∷ s) = c == d && starts_with p s

-- `includes`
abbrev pub includes : Text → Text → Bool
includes p [] = starts_with p []
includes p (c ∷ s) = starts_with p (c ∷ s) || includes p s

abbrev pub ends_with : Text → Text → Bool
ends_with p s = starts_with (reverse p) (reverse s)

-- `indexOf` and `lastIndexOf` of one unit; `none` is -1
abbrev pub index_of : ℕ → Text → Option ℕ
index_of c [] = none
index_of c (d ∷ s) = let rest = index_of c s in if d == c then some 0 else Option.map suc rest

abbrev pub last_index_of : ℕ → Text → Option ℕ
last_index_of c [] = none
last_index_of c (d ∷ s) = elim (last_index_of c s) [
  | some i ↦ some (suc i)
  | none ↦ if d == c then some 0 else none
]

-- `slice(0, n)` for a length n
abbrev pub slice_to : ℕ → Text → Text
slice_to n s = take n s
