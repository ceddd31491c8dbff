-- ===== src/Console/Lines/Merged/Sorted.antt =====
-- Sorting the entries, and cutting a sorted list.
use blockops.Prelude.{
  ℕ, zero, suc, ◌<◌, ◌≡◌, refl, ◌∙◌, ap, ◌≢◌, ◌⊎◌, inl, inr, some, List, [], ◌∷◌, All, All-drop,
  drop, ◌==◌, ==_iff, subst, Bool-cases, arith,
}
use blockops.Console.Line.{ConsoleLine}
use blockops.Console.Lines.{insert_sorted, sort_by_sequence}
use blockops.Console.Lines.Merged.Entries.{find, when, or_else, Distinct}

abbrev pub IsAscending : List ConsoleLine → Type 0
IsAscending [] = Unit
IsAscending (x ∷ xs) = All (λ (y : ConsoleLine). x.sequence < y.sequence) xs × IsAscending xs

All-imp :
    (P Q : ConsoleLine → Type 0) (f : (y : ConsoleLine) → P y → Q y) (xs : List ConsoleLine)
    → All P xs
    → All Q xs
All-imp P Q f [] h = tt
All-imp P Q f (x ∷ xs) (p, h) = (f x p, All-imp P Q f xs h)

All-insert_sorted :
    (P : ConsoleLine → Type 0) (x : ConsoleLine) (xs : List ConsoleLine)
    → P x
    → All P xs
    → All P (insert_sorted x xs)
unfolding insert_sorted
All-insert_sorted P x [] p h = (p, tt)
All-insert_sorted P x (y ∷ xs) p (q, h) = ground (arith, All-insert_sorted P x xs p h)

All-sort_by_sequence :
    (P : ConsoleLine → Type 0) (xs : List ConsoleLine) → All P xs → All P (sort_by_sequence xs)
unfolding sort_by_sequence
All-sort_by_sequence P [] h = tt
All-sort_by_sequence P (x ∷ xs) (p, h) =
    All-insert_sorted P x (sort_by_sequence xs) p (All-sort_by_sequence P xs h)

lower_tail :
    (x y : ConsoleLine) (xs : List ConsoleLine)
    → All (λ (z : ConsoleLine). y.sequence < z.sequence) xs
    → x.sequence < y.sequence
    → All (λ (z : ConsoleLine). x.sequence < z.sequence) xs
lower_tail x y xs h p =
    All-imp (λ (z : ConsoleLine). y.sequence < z.sequence)
      (λ (z : ConsoleLine). x.sequence < z.sequence) (λ z q. omega arith) xs h

insert_sorted-IsAscending :
    (x : ConsoleLine) (xs : List ConsoleLine)
    → All (λ (y : ConsoleLine). y.sequence ≢ x.sequence) xs
    → IsAscending xs
    → IsAscending (insert_sorted x xs)
unfolding insert_sorted
insert_sorted-IsAscending x [] d h = (tt, tt)
insert_sorted-IsAscending x (y ∷ xs) (ne, d) (low, h) = ground (
  arith,
  insert_sorted-IsAscending x xs d h,
  All-insert_sorted (λ (z : ConsoleLine). y.sequence < z.sequence) x xs,
  lower_tail x y xs,
)

pub sort_by_sequence-IsAscending :
    (xs : List ConsoleLine) → Distinct xs → IsAscending (sort_by_sequence xs)
unfolding sort_by_sequence
sort_by_sequence-IsAscending [] d = tt
sort_by_sequence-IsAscending (x ∷ xs) (ne, d) =
    insert_sorted-IsAscending x (sort_by_sequence xs)
      (All-sort_by_sequence (λ (y : ConsoleLine). y.sequence ≢ x.sequence) xs ne)
      (sort_by_sequence-IsAscending xs d)

find-insert_sorted :
    (q : ℕ) (x : ConsoleLine) (xs : List ConsoleLine)
    → All (λ (y : ConsoleLine). y.sequence ≢ x.sequence) xs
    → find q (insert_sorted x xs) ≡ find q (x ∷ xs)
unfolding insert_sorted
find-insert_sorted q x [] d = refl
find-insert_sorted q x (y ∷ xs) (ne, d) = ground (arith, find-insert_sorted q x xs d)

pub find-sort_by_sequence :
    (q : ℕ) (xs : List ConsoleLine) → Distinct xs → find q (sort_by_sequence xs) ≡ find q xs
unfolding sort_by_sequence
find-sort_by_sequence q [] d = refl
find-sort_by_sequence q (x ∷ xs) (ne, d) =
    find-insert_sorted q x (sort_by_sequence xs)
      (All-sort_by_sequence (λ (y : ConsoleLine). y.sequence ≢ x.sequence) xs ne)
    ∙ ap (or_else (when x q)) (find-sort_by_sequence q xs d)

pub drop-IsAscending : (n : ℕ) (xs : List ConsoleLine) → IsAscending xs → IsAscending (drop n xs)
drop-IsAscending zero xs h = h
drop-IsAscending (suc n) [] h = h
drop-IsAscending (suc n) (x ∷ xs) h = drop-IsAscending n xs h.1

All-find :
    (P : ConsoleLine → Type 0) (q : ℕ) (xs : List ConsoleLine) (x : ConsoleLine)
    → All P xs
    → find q xs ≡ some x
    → P x × (x.sequence ≡ q)
All-find P q [] x h e = cc
All-find P q (y ∷ xs) x (p, h) e = ground (arith, All-find P q xs x h)

-- What a cut list still has, the whole list has.
pub find-drop :
    (n q : ℕ) (xs : List ConsoleLine) {x : ConsoleLine}
    → IsAscending xs
    → find q (drop n xs) ≡ some x
    → find q xs ≡ some x
find-drop zero q xs h e = e
find-drop (suc n) q [] h e = e
find-drop (suc n) q (y ∷ xs) {x} (low, h) e = ground (
  arith,
  find-drop n q xs {x = x} h e,
  All-find (λ (z : ConsoleLine). y.sequence < z.sequence) q xs x low,
)

-- What a cut has removed is lower than all that is left.
pub find-drop_or_lower :
    (n q : ℕ) (xs : List ConsoleLine) {x : ConsoleLine}
    → IsAscending xs
    → find q xs ≡ some x
    → (find q (drop n xs) ≡ some x) ⊎ All (λ (y : ConsoleLine). q < y.sequence) (drop n xs)
find-drop_or_lower zero q xs h e = inl e
find-drop_or_lower (suc n) q [] h e = inl e
find-drop_or_lower (suc n) q (y ∷ xs) {x} (low, h) e = elim (Bool-cases (y.sequence == q)) [
  | inl same ↦
      let p : y.sequence ≡ q = (==_iff y.sequence q).0 same in
      inr (
        All-drop (λ (z : ConsoleLine). q < z.sequence) n xs
          (subst (λ k. All (λ (z : ConsoleLine). k < z.sequence) xs) p low))
  | inr other ↦ find-drop_or_lower n q xs h (rw other at e)
]
