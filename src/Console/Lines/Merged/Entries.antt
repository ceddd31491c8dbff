-- ===== src/Console/Lines/Merged/Entries.antt =====
-- The entries of the map that the merge builds: one for each sequence number.
use blockops.Prelude.{
  ℕ, ◌≡◌, refl, sym, ◌∙◌, ap, ◌≢◌, Option, none, some, List, [], ◌∷◌, foldl, All, ◌==◌, ==_iff,
  Bool-cases, inl, inr, false, subst, if◌then◌else◌, arith,
}
use blockops.Console.Line.{ConsoleLine}
use blockops.Console.Lines.{set_by_sequence, by_sequence}

abbrev pub or_else : Option ConsoleLine → Option ConsoleLine → Option ConsoleLine
or_else none other = other
or_else (some line) other = some line

abbrev pub when : ConsoleLine → ℕ → Option ConsoleLine
when line q = if line.sequence == q then some line else none

-- The first, and the last, line of a list with a sequence number.
abbrev pub find : ℕ → List ConsoleLine → Option ConsoleLine
find q [] = none
find q (line ∷ lines) = or_else (when line q) (find q lines)

abbrev pub latest : ℕ → List ConsoleLine → Option ConsoleLine
latest q [] = none
latest q (line ∷ lines) = or_else (latest q lines) (when line q)

abbrev pub Distinct : List ConsoleLine → Type 0
Distinct [] = Unit
Distinct (x ∷ xs) = All (λ (y : ConsoleLine). y.sequence ≢ x.sequence) xs × Distinct xs

or_else_assoc : (a b c : Option ConsoleLine) → or_else (or_else a b) c ≡ or_else a (or_else b c)
or_else_assoc none b c = refl
or_else_assoc (some x) b c = refl

or_else-none : (a : Option ConsoleLine) → or_else a none ≡ a
or_else-none none = refl
or_else-none (some x) = refl

find-set_by_sequence :
    (q : ℕ) (entries : List ConsoleLine) (line : ConsoleLine)
    → find q (set_by_sequence entries line) ≡ or_else (when line q) (find q entries)
unfolding set_by_sequence
find-set_by_sequence q [] line = refl
find-set_by_sequence q (x ∷ entries) line = ground (arith, find-set_by_sequence q entries line)

find-foldl :
    (q : ℕ) (entries lines : List ConsoleLine)
    → find q (foldl set_by_sequence entries lines) ≡ or_else (latest q lines) (find q entries)
find-foldl q entries [] = refl
find-foldl q entries (line ∷ lines) =
    find-foldl q (set_by_sequence entries line) lines
    ∙ ap (or_else (latest q lines)) (find-set_by_sequence q entries line)
    ∙ sym (or_else_assoc (latest q lines) (when line q) (find q entries))

All-set_by_sequence :
    (P : ConsoleLine → Type 0) (entries : List ConsoleLine) (line : ConsoleLine)
    → All P entries
    → P line
    → All P (set_by_sequence entries line)
unfolding set_by_sequence
All-set_by_sequence P [] line h p = (p, tt)
All-set_by_sequence P (x ∷ entries) line (hx, h) p =
    ground (arith, All-set_by_sequence P entries line h p)

differ : (x line : ConsoleLine) → (x.sequence == line.sequence) ≡ false → x.sequence ≢ line.sequence
differ x line h = ground arith

set_by_sequence-Distinct :
    (entries : List ConsoleLine) (line : ConsoleLine)
    → Distinct entries
    → Distinct (set_by_sequence entries line)
unfolding set_by_sequence
set_by_sequence-Distinct [] line h = (tt, tt)
set_by_sequence-Distinct (x ∷ entries) line (hx, h) =
    elim (Bool-cases (x.sequence == line.sequence)) [
      | inl same ↦
          let e : x.sequence ≡ line.sequence = (==_iff x.sequence line.sequence).0 same in
          rw same (subst (λ k. All (λ (y : ConsoleLine). y.sequence ≢ k) entries) e hx, h)
      | inr other ↦
          let ne : line.sequence ≢ x.sequence = λ e. differ x line other (sym e) in
          rw other (
            All-set_by_sequence (λ (y : ConsoleLine). y.sequence ≢ x.sequence) entries line hx ne,
            set_by_sequence-Distinct entries line h,
          )
    ]

foldl-Distinct :
    (entries lines : List ConsoleLine)
    → Distinct entries
    → Distinct (foldl set_by_sequence entries lines)
foldl-Distinct entries [] h = h
foldl-Distinct entries (line ∷ lines) h =
    foldl-Distinct (set_by_sequence entries line) lines (set_by_sequence-Distinct entries line h)

pub find-by_sequence :
    (q : ℕ) (history live : List ConsoleLine)
    → find q (by_sequence history live) ≡ or_else (latest q live) (latest q history)
unfolding by_sequence
find-by_sequence q history live =
    find-foldl q (foldl set_by_sequence [] history) live
    ∙ ap (or_else (latest q live)) (find-foldl q [] history ∙ or_else-none (latest q history))

pub by_sequence-Distinct : (history live : List ConsoleLine) → Distinct (by_sequence history live)
unfolding by_sequence
by_sequence-Distinct history live =
    foldl-Distinct (foldl set_by_sequence [] history) live (foldl-Distinct [] history tt)
