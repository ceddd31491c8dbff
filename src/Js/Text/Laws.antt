-- ===== src/Js/Text/Laws.antt =====
-- Comparing and trimming texts.
use blockops.Prelude.{◌≡◌, refl, true, ◌↔◌, [], ◌∷◌, subst, arith}
use blockops.Js.Text.{Text, same_text, trim_start}

same_text_sound : (s t : Text) → same_text s t ≡ true → s ≡ t
same_text_sound [] [] h = refl
same_text_sound [] (y ∷ ys) h = cc
same_text_sound (x ∷ xs) [] h = cc
same_text_sound (x ∷ xs) (y ∷ ys) h = ground (arith, same_text_sound xs ys)

pub same_text_refl : (s : Text) → same_text s s ≡ true
same_text_refl [] = refl
same_text_refl (x ∷ xs) = ground (arith, same_text_refl xs)

pub same_text_iff : (s t : Text) → (same_text s t ≡ true) ↔ (s ≡ t)
same_text_iff s t =
    (same_text_sound s t, λ e. subst (λ u. same_text s u ≡ true) e (same_text_refl s))

trim_start_idem : (s : Text) → trim_start (trim_start s) ≡ trim_start s
unfolding trim_start
trim_start_idem [] = refl
trim_start_idem (c ∷ s) = ground (arith, trim_start_idem s)
