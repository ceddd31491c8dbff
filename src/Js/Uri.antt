-- ===== src/Js/Uri.antt =====
-- `encodeURIComponent`
use mathlib.Core.Option
use blockops.Prelude.{
  ℕ, ◌+◌, ◌-◌, ◌/◌, ◌%◌, ◌≡◌, ◌≢◌, subst, Bool, true, false, ◌&&◌, ◌||◌, Option, none, some, List,
  [], ◌∷◌, ◌++◌, ltb, All, All-append, if◌then◌else◌, Bool-cases, inl, inr, arith,
}
use blockops.Js.Text.{Text, in_range, includes_unit, codes}
use blockops.Js.Utf8.{is_high_surrogate, is_low_surrogate, pair_point}

-- Letters, digits and `-_.!~*'()`
unfoldable pub is_unreserved : ℕ → Bool
is_unreserved c =
    in_range b'A' b'Z' c
    || in_range b'a' b'z' c
    || in_range b'0' b'9' c
    || includes_unit c (codes "-_.!~*'()")

hex_digit : ℕ → ℕ
hex_digit d = if ltb d 10 then b'0' + d else b'A' + (d - 10)

percent : ℕ → Text
unfolding hex_digit
percent byte = b'%' ∷ hex_digit (byte / 16) ∷ hex_digit (byte % 16) ∷ []

-- The UTF-8 bytes of a code point.
utf8_bytes : ℕ → List ℕ
utf8_bytes p =
    if ltb p 0x80
    then p ∷ []
    else if ltb p 0x800
    then (0xc0 + p / 64) ∷ (0x80 + p % 64) ∷ []
    else if ltb p 0x10000
    then (0xe0 + p / 4096) ∷ (0x80 + p / 64 % 64) ∷ (0x80 + p % 64) ∷ []
    else (0xf0 + p / 262144) ∷ (0x80 + p / 4096 % 64) ∷ (0x80 + p / 64 % 64) ∷ (0x80 + p % 64) ∷ []

percent_all : List ℕ → Text
unfolding percent
percent_all [] = []
percent_all (byte ∷ bytes) = percent byte ++ percent_all bytes

encode_point : ℕ → Text
unfolding percent_all utf8_bytes
encode_point p = percent_all (utf8_bytes p)

encode_unit : ℕ → Text
unfolding is_unreserved encode_point
encode_unit u = if is_unreserved u then u ∷ [] else encode_point u

-- `none` where the source throws a `URIError`: at a lone surrogate.
unfoldable pub encode_uri_component : Text → Option Text
unfolding is_high_surrogate is_low_surrogate encode_unit pair_point encode_point
encode_uri_component [] = some []
encode_uri_component (u ∷ []) =
    if is_high_surrogate u || is_low_surrogate u then none else some (encode_unit u)
encode_uri_component (u ∷ v ∷ s) =
    let pair = Option.map (λ t. encode_point (pair_point u v) ++ t) (encode_uri_component s) in
    let single = Option.map (λ t. encode_unit u ++ t) (encode_uri_component (v ∷ s)) in
    if is_high_surrogate u && is_low_surrogate v
    then pair
    else if is_high_surrogate u || is_low_surrogate u
    then none
    else single

-- A unit that ends no path segment: not `/`, `?` or `#`.
abbrev pub IsSegmentUnit : ℕ → Type 0
IsSegmentUnit c = (c ≢ b'/') × (c ≢ b'?') × (c ≢ b'#')

hex_digit-IsSegmentUnit : (d : ℕ) → IsSegmentUnit (hex_digit d)
unfolding hex_digit
hex_digit-IsSegmentUnit d = ground arith

percent-IsSegmentUnit : (byte : ℕ) → All IsSegmentUnit (percent byte)
unfolding percent
percent-IsSegmentUnit byte =
    (omega arith, (hex_digit-IsSegmentUnit (byte / 16), (hex_digit-IsSegmentUnit (byte % 16), tt)))

percent_all-IsSegmentUnit : (bytes : List ℕ) → All IsSegmentUnit (percent_all bytes)
unfolding percent_all
percent_all-IsSegmentUnit [] = tt
percent_all-IsSegmentUnit (byte ∷ bytes) =
    All-append IsSegmentUnit (percent byte) (percent_all bytes) (percent-IsSegmentUnit byte)
      (percent_all-IsSegmentUnit bytes)

is_unreserved-IsSegmentUnit : (c : ℕ) → is_unreserved c ≡ true → IsSegmentUnit c
unfolding is_unreserved
is_unreserved-IsSegmentUnit c h = ground arith

encode_point-IsSegmentUnit : (p : ℕ) → All IsSegmentUnit (encode_point p)
unfolding encode_point
encode_point-IsSegmentUnit p = percent_all-IsSegmentUnit (utf8_bytes p)

encode_unit-IsSegmentUnit : (u : ℕ) → All IsSegmentUnit (encode_unit u)
unfolding encode_unit
encode_unit-IsSegmentUnit u = elim (Bool-cases (is_unreserved u)) [
  | inl yes_ ↦ rw yes_ (is_unreserved-IsSegmentUnit u yes_, tt)
  | inr no_ ↦ rw no_ (encode_point-IsSegmentUnit u)
]

abbrev IsSegment : Option Text → Type 0
IsSegment none = Unit
IsSegment (some t) = All IsSegmentUnit t

IsSegment-map :
    (prefix : Text) (rest : Option Text)
    → All IsSegmentUnit prefix
    → IsSegment rest
    → IsSegment (Option.map (λ t. prefix ++ t) rest)
IsSegment-map prefix none h k = tt
IsSegment-map prefix (some t) h k = All-append IsSegmentUnit prefix t h k

IsSegment-if :
    (b : Bool) (x y : Option Text) → IsSegment x → IsSegment y → IsSegment (if b then x else y)
IsSegment-if true x y h k = h
IsSegment-if false x y h k = k

encode-IsSegment : (s : Text) → IsSegment (encode_uri_component s)
unfolding encode_uri_component
encode-IsSegment [] = tt
encode-IsSegment (u ∷ []) =
    IsSegment-if (is_high_surrogate u || is_low_surrogate u) none (some (encode_unit u)) tt
      (encode_unit-IsSegmentUnit u)
encode-IsSegment (u ∷ v ∷ s) =
    IsSegment-if (is_high_surrogate u && is_low_surrogate v) _ _
      (IsSegment-map (encode_point (pair_point u v)) (encode_uri_component s)
        (encode_point-IsSegmentUnit (pair_point u v)) (encode-IsSegment s))
      (IsSegment-if (is_high_surrogate u || is_low_surrogate u) none _ tt (
        IsSegment-map (encode_unit u) (encode_uri_component (v ∷ s)) (encode_unit-IsSegmentUnit u)
          (encode-IsSegment (v ∷ s))))

-- Whatever the identifier, its encoding stays inside one path segment.
pub encode_uri_component-IsSegmentUnit :
    (s t : Text) → encode_uri_component s ≡ some t → All IsSegmentUnit t
encode_uri_component-IsSegmentUnit s t e = subst IsSegment e (encode-IsSegment s)
