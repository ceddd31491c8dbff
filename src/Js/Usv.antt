-- ===== src/Js/Usv.antt =====
-- The conversion to a `USVString`, which `URLSearchParams` does: a lone surrogate becomes U+FFFD.
use blockops.Prelude.{
  ℕ, ◌≡◌, refl, ap, sym, ◌∙◌, Bool, true, false, not, ◌&&◌, ◌||◌, [], ◌∷◌, length, Bool-cases, inl,
  inr, if◌then◌else◌, suc, arith,
}
use blockops.Js.Text.{Text}
use blockops.Js.Utf8.{is_high_surrogate, is_low_surrogate, code_points}

unfoldable pub replaced : ℕ → ℕ
replaced u = if is_high_surrogate u || is_low_surrogate u then 0xfffd else u

unfoldable pub to_usv_string : Text → Text
unfolding replaced
to_usv_string [] = []
to_usv_string (u ∷ []) = replaced u ∷ []
to_usv_string (u ∷ v ∷ s) =
    let pair = u ∷ v ∷ to_usv_string s in
    let single = replaced u ∷ to_usv_string (v ∷ s) in
    if is_high_surrogate u && is_low_surrogate v then pair else single

replaced-high : (u : ℕ) → is_high_surrogate (replaced u) ≡ false
unfolding replaced is_high_surrogate is_low_surrogate
replaced-high u = ground arith

code_points-single :
    (u : ℕ) (t : Text)
    → is_high_surrogate u ≡ false
    → length (code_points (u ∷ t)) ≡ suc (length (code_points t))
unfolding code_points
code_points-single u [] h = refl
code_points-single u (v ∷ s) h = rw h refl

code_points-pair :
    (u v : ℕ) (t : Text)
    → (is_high_surrogate u && is_low_surrogate v) ≡ true
    → length (code_points (u ∷ v ∷ t)) ≡ suc (length (code_points t))
unfolding code_points
code_points-pair u v t h = rw h refl

code_points-apart :
    (u v : ℕ) (t : Text)
    → (is_high_surrogate u && is_low_surrogate v) ≡ false
    → length (code_points (u ∷ v ∷ t)) ≡ suc (length (code_points (v ∷ t)))
unfolding code_points
code_points-apart u v t h = rw h refl

code_points-one : (u : ℕ) → length (code_points (u ∷ [])) ≡ 1
unfolding code_points
code_points-one u = refl

-- The conversion keeps the number of code points.
pub code_points-to_usv_string :
    (t : Text) → length (code_points (to_usv_string t)) ≡ length (code_points t)
unfolding to_usv_string
code_points-to_usv_string [] = refl
code_points-to_usv_string (u ∷ []) = code_points-one (replaced u) ∙ sym (code_points-one u)
code_points-to_usv_string (u ∷ v ∷ s) =
    elim (Bool-cases (is_high_surrogate u && is_low_surrogate v)) [
      | inl e ↦
          rw (to_usv_string, e)
            (code_points-pair u v (to_usv_string s) e
              ∙ ap suc (code_points-to_usv_string s)
              ∙ sym (code_points-pair u v s e))
      | inr e ↦
          rw (to_usv_string, e)
            (code_points-single (replaced u) (to_usv_string (v ∷ s)) (replaced-high u)
              ∙ ap suc (code_points-to_usv_string (v ∷ s))
              ∙ sym (code_points-apart u v s e))
    ]

-- No lone surrogate is in a text.
unfoldable pub is_well_formed : Text → Bool
is_well_formed [] = true
is_well_formed (u ∷ []) = not (is_high_surrogate u) && not (is_low_surrogate u)
is_well_formed (u ∷ v ∷ s) =
    let pair = is_well_formed s in
    let single = is_well_formed (v ∷ s) in
    if is_high_surrogate u && is_low_surrogate v
    then pair
    else not (is_high_surrogate u) && not (is_low_surrogate u) && single

-- The conversion keeps a text without one.
pub to_usv_string-IsSame : (t : Text) → is_well_formed t ≡ true → to_usv_string t ≡ t
unfolding to_usv_string is_well_formed
to_usv_string-IsSame [] h = refl
to_usv_string-IsSame (u ∷ []) h =
    ground (arith, Bool-cases (is_high_surrogate u), Bool-cases (is_low_surrogate u))
to_usv_string-IsSame (u ∷ v ∷ s) h = ground (
  arith,
  to_usv_string-IsSame s,
  to_usv_string-IsSame (v ∷ s),
  Bool-cases (is_high_surrogate u),
  Bool-cases (is_low_surrogate u),
  Bool-cases (is_low_surrogate v),
)
