-- ===== src/Console/CommandForm/History.antt =====
-- The history of submitted commands.
use blockops.Prelude.{
  ℕ, zero, suc, ◌≤◌, ◌≡◌, Bool, true, not, List, [], ◌∷◌, take, select, length, All, All-take,
  All-select, select-All, length-take, Bool-cases, inl, inr, arith,
}
use blockops.Js.Text.{Text, same_text}
use blockops.Js.Utf8.{utf8_length}
use blockops.Console.CommandForm.{Arrow, up, down, history_limit, remember, next_index}

-- What the server accepts as a command.
abbrev pub IsCommand : Text → Type 0
IsCommand t = (1 ≤ utf8_length t) × (utf8_length t ≤ 4096)

abbrev pub Distinct : List Text → Type 0
Distinct [] = Unit
Distinct (x ∷ xs) = All (λ y. not (same_text y x) ≡ true) xs × Distinct xs

Distinct-take : (n : ℕ) (xs : List Text) → Distinct xs → Distinct (take n xs)
Distinct-take zero xs h = tt
Distinct-take (suc n) [] h = tt
Distinct-take (suc n) (x ∷ xs) h = (All-take _ n xs h.0, Distinct-take n xs h.1)

Distinct-select : (p : Text → Bool) (xs : List Text) → Distinct xs → Distinct (select p xs)
Distinct-select p [] h = tt
Distinct-select p (x ∷ xs) h = elim (Bool-cases (p x)) [
  | inl e ↦ rw e (All-select _ p xs h.0, Distinct-select p xs h.1)
  | inr e ↦ rw e (Distinct-select p xs h.1)
]

pub remember-Distinct : (v : Text) (h : List Text) → Distinct h → Distinct (remember v h)
unfolding remember
remember-Distinct v h d =
    Distinct-take history_limit (v ∷ select (λ item. not (same_text item v)) h)
      (select-All (λ item. not (same_text item v)) h, Distinct-select _ h d)

length-remember : (v : Text) (h : List Text) → length (remember v h) ≤ history_limit
unfolding remember
length-remember v h =
    omega (arith, length-take history_limit (v ∷ select (λ item. not (same_text item v)) h))

remember-All :
    (v : Text) (h : List Text) → IsCommand v → All IsCommand h → All IsCommand (remember v h)
unfolding remember
remember-All v h c a =
    All-take IsCommand history_limit (v ∷ select (λ item. not (same_text item v)) h)
      (c, All-select IsCommand _ h a)

-- The history of the form, and the index that browses it: 0 for no entry.
pub record IsHistory (history : List Text) (index : ℕ) : Type 0 where
  pub bound : length history ≤ history_limit
  pub distinct : Distinct history
  pub commands : All IsCommand history
  pub index_bound : index ≤ length history

pub next_index-IsHistory :
    (a : Arrow) (h : List Text) (i : ℕ) → IsHistory h i → IsHistory h (next_index a (length h) i)
next_index-IsHistory up h i k = record {
  bound = k.bound;
  distinct = k.distinct;
  commands = k.commands;
  index_bound = omega arith;
}
next_index-IsHistory down h i k = record {
  bound = k.bound;
  distinct = k.distinct;
  commands = k.commands;
  index_bound = let b = k.index_bound in omega arith;
}

pub remember-IsHistory :
    (v : Text) (h : List Text) (i : ℕ) → IsCommand v → IsHistory h i → IsHistory (remember v h) 0
remember-IsHistory v h i c k = record {
  bound = length-remember v h;
  distinct = remember-Distinct v h k.distinct;
  commands = remember-All v h c k.commands;
  index_bound = omega arith;
}
