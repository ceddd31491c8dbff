-- ===== src/Js/Number.antt =====
-- `String(n)` of a natural number, by its decimal digits.
use blockops.Prelude.{
  ℕ, zero, suc, ◌+◌, ◌-◌, ◌*◌, ◌/◌, ◌%◌, ◌≤◌, ◌<◌, ◌≡◌, refl, [], ◌∷◌, ◌++◌, ltb, All, All-append,
  if◌then◌else◌, Bool-cases, inl, inr, arith, ltb→lt,
}
use blockops.Js.Text.{Text}

-- Enough fuel is one more than the number of digits, which the number itself plus one is.
digits : ℕ → ℕ → Text
digits zero n = []
digits (suc fuel) n =
    let rest = digits fuel (n / 10) in
    if ltb n 10 then (b'0' + n) ∷ [] else rest ++ (b'0' + n % 10) ∷ []

unfoldable pub to_text : ℕ → Text
unfolding digits
to_text n = digits (suc n) n

abbrev pub IsDigit : ℕ → Type 0
IsDigit c = (b'0' ≤ c) × (c ≤ b'9')

digits-IsDigit : (fuel n : ℕ) → All IsDigit (digits fuel n)
unfolding digits
digits-IsDigit zero n = tt
digits-IsDigit (suc fuel) n = elim (Bool-cases (ltb n 10)) [
  | inl e ↦ rw e ((omega arith, let h = ltb→lt n 10 e in omega arith), tt)
  | inr e ↦ rw e (
      All-append IsDigit (digits fuel (n / 10)) _ (digits-IsDigit fuel (n / 10))
        ((omega arith, omega arith), tt))
]

pub to_text-IsDigit : (n : ℕ) → All IsDigit (to_text n)
unfolding to_text
to_text-IsDigit n = digits-IsDigit (suc n) n

-- The number that decimal digits stand for.
abbrev pub value : ℕ → Text → ℕ
value acc [] = acc
value acc (c ∷ s) = value (acc * 10 + (c - b'0')) s

value-append : (acc : ℕ) (s t : Text) → value acc (s ++ t) ≡ value (value acc s) t
value-append acc [] t = refl
value-append acc (c ∷ s) t = value-append (acc * 10 + (c - b'0')) s t

digits-value : (fuel n : ℕ) → n < fuel → value 0 (digits fuel n) ≡ n
unfolding digits
digits-value zero n h = omega arith
digits-value (suc fuel) n h = elim (Bool-cases (ltb n 10)) [
  | inl e ↦ rw e (omega arith)
  | inr e ↦ rw e (
      rw (value-append 0 (digits fuel (n / 10)) ((b'0' + n % 10) ∷ []))
        (ground (arith, digits-value fuel (n / 10))))
]

-- The fuel is enough: the digits stand for the number.
pub to_text-value : (n : ℕ) → value 0 (to_text n) ≡ n
unfolding to_text
to_text-value n = digits-value (suc n) n (omega arith)
