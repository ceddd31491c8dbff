-- ===== src/Console/Lines/Window.antt =====
-- The live lines are a window: the last lines that were appended, and no more than the limit.
use blockops.Prelude.{
  ℕ, ◌+◌, ◌-◌, ◌≤◌, ◌≡◌, sym, ap, ◌∙◌, ◌≡⟨◌⟩◌, ◌∎, List, [], ◌∷◌, ◌++◌, foldl, append_assoc,
  append-nil, length, drop, length-append, length-drop, drop-append, drop-drop, arith,
}
use blockops.Console.Line.{ConsoleLine}
use blockops.Console.Lines.{client_line_limit, slice_last, append_console_line}

module _ {ℓ} {A : Type ℓ} where
  pub length-slice_last : (n : ℕ) (xs : List A) → length (slice_last n xs) ≤ n
  unfolding slice_last
  length-slice_last n xs = omega (arith, length-drop (length xs - n) xs)

  pub slice_last-short : (n : ℕ) (xs : List A) → length xs ≤ n → slice_last n xs ≡ xs
  unfolding slice_last
  slice_last-short n xs h = let e : length xs - n ≡ 0 = omega arith in ap (λ k. drop k xs) e

  -- cutting to the limit before an append does not show after the next cut
  pub slice_last-append :
      (n : ℕ) (xs ys : List A) → slice_last n (slice_last n xs ++ ys) ≡ slice_last n (xs ++ ys)
  unfolding slice_last
  slice_last-append n xs ys =
      let k : ℕ = length xs - n in
      let m : ℕ = length (drop k xs ++ ys) - n in
      let e : k + m ≡ length (xs ++ ys) - n =
        omega (arith, length-append (drop k xs) ys, length-append xs ys, length-drop k xs) in
      ap (drop m) (sym (drop-append k xs ys (omega arith)))
      ∙ drop-drop m k (xs ++ ys)
      ∙ ap (λ j. drop j (xs ++ ys)) e

pub foldl-append_console_line :
    (start lines : List ConsoleLine)
    → foldl append_console_line (slice_last client_line_limit start) lines
      ≡ slice_last client_line_limit (start ++ lines)
unfolding append_console_line
foldl-append_console_line start [] = ap (slice_last client_line_limit) (sym (append-nil start))
foldl-append_console_line start (line ∷ lines) =
    foldl append_console_line (append_console_line (slice_last client_line_limit start) line) lines
    ≡⟨ ap (λ s. foldl append_console_line s lines)
        (slice_last-append client_line_limit start (line ∷ [])) ⟩
      foldl append_console_line (slice_last client_line_limit (start ++ line ∷ [])) lines
    ≡⟨ foldl-append_console_line (start ++ line ∷ []) lines ⟩
      slice_last client_line_limit ((start ++ line ∷ []) ++ lines)
    ≡⟨ ap (slice_last client_line_limit) (append_assoc start (line ∷ []) lines) ⟩
      slice_last client_line_limit (start ++ line ∷ lines) ∎

-- However many lines a stream has delivered, the list that started empty holds exactly the last
-- 2,000 of them, in the order of delivery.
pub append_console_line-window :
    (lines : List ConsoleLine)
    → (foldl append_console_line [] lines ≡ slice_last client_line_limit lines)
      × (length (foldl append_console_line [] lines) ≤ client_line_limit)
unfolding slice_last
append_console_line-window lines =
    let e : foldl append_console_line [] lines ≡ slice_last client_line_limit lines =
      foldl-append_console_line [] lines in
    (e, rw e (length-slice_last client_line_limit lines))
