-- ===== src/Js/Utf8.antt =====
-- `new TextEncoder().encode(value).length`: a surrogate pair takes four bytes, and a lone
-- surrogate the three bytes of the replacement character.
use blockops.Prelude.{
  ℕ, ◌+◌, ◌-◌, ◌*◌, ◌≤◌, Bool, ◌&&◌, List, [], ◌∷◌, ltb, length, if◌then◌else◌, arith,
}
use blockops.Js.Text.{Text, in_range}

unfoldable pub is_high_surrogate : ℕ → Bool
is_high_surrogate u = in_range 0xd800 0xdbff u

unfoldable pub is_low_surrogate : ℕ → Bool
is_low_surrogate u = in_range 0xdc00 0xdfff u

unfoldable pub unit_bytes : ℕ → ℕ
unit_bytes u = if ltb u 0x80 then 1 else if ltb u 0x800 then 2 else 3

unfoldable pub utf8_length : Text → ℕ
unfolding is_high_surrogate is_low_surrogate unit_bytes
utf8_length [] = 0
utf8_length (u ∷ []) = unit_bytes u
utf8_length (u ∷ v ∷ s) =
    let pair = 4 + utf8_length s in
    let single = unit_bytes u + utf8_length (v ∷ s) in
    if is_high_surrogate u && is_low_surrogate v then pair else single

-- A text has at least as many bytes as units, and at most three times as many.
pub length-le-utf8_length : (s : Text) → (length s ≤ utf8_length s) × (utf8_length s ≤ 3 * length s)
unfolding utf8_length
length-le-utf8_length [] = omega arith
length-le-utf8_length (u ∷ []) = ground arith
length-le-utf8_length (u ∷ v ∷ s) =
    ground (arith, length-le-utf8_length s, length-le-utf8_length (v ∷ s))

-- The code point of a surrogate pair.
unfoldable pub pair_point : ℕ → ℕ → ℕ
pair_point u v = 0x10000 + (u - 0xd800) * 1024 + (v - 0xdc00)

-- `Array.from(value)`: a surrogate pair is one code point, a lone surrogate stands for itself.
unfoldable pub code_points : Text → List ℕ
unfolding is_high_surrogate is_low_surrogate
code_points [] = []
code_points (u ∷ []) = u ∷ []
code_points (u ∷ v ∷ s) =
    let pair = pair_point u v ∷ code_points s in
    let single = u ∷ code_points (v ∷ s) in
    if is_high_surrogate u && is_low_surrogate v then pair else single

-- There are at most as many code points as units.
pub length-code_points : (s : Text) → length (code_points s) ≤ length s
unfolding code_points
length-code_points [] = omega arith
length-code_points (u ∷ []) = omega arith
length-code_points (u ∷ v ∷ s) = ground (arith, length-code_points s, length-code_points (v ∷ s))
