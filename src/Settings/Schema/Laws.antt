-- ===== src/Settings/Schema/Laws.antt =====
-- What an address of RCON looks like.
use blockops.Prelude.{
  ℕ, zero, suc, ◌≤◌, ◌≡◌, refl, ap, ◌∙◌, inl, inr, true, false, Option, none, some, [], ◌∷◌, ◌++◌,
  length, length-take, length-drop, take, drop, ◌<◌, ◌↔◌, any, leb, Bool-cases, Option-cases, arith,
}
use blockops.Js.Text.{Text, codes, trim, is_space, starts_with, last_index_of, includes_unit}
use blockops.Zod.{verdict, accept, check, alter, Zod}
use blockops.Settings.Schema.{separated, is_host_port, rcon_address_schema}

last_index_of-none : (c : ℕ) (s : Text) → last_index_of c s ≡ none → includes_unit c s ≡ false
last_index_of-none c [] e = refl
last_index_of-none c (d ∷ s) e = elim (Option-cases (last_index_of c s)) [
  | inl n ↦ let rest = last_index_of-none c s n in let here_ = rw n at e in ground arith
  | inr (j, m) ↦ let absurd = rw m at e in cc
]

-- What follows the last occurrence of a unit has none.
last_index_of-split :
    (c : ℕ) (s : Text) (i : ℕ)
    → last_index_of c s ≡ some i
    → (s ≡ take i s ++ c ∷ drop (suc i) s) × (includes_unit c (drop (suc i) s) ≡ false)
last_index_of-split c [] i e = cc
last_index_of-split c (d ∷ s) zero e = elim (Option-cases (last_index_of c s)) [
  | inl n ↦ let free = last_index_of-none c s n in let h = rw n at e in ground arith
  | inr (j, m) ↦ let h = rw m at e in cc
]
last_index_of-split c (d ∷ s) (suc i) e = elim (Option-cases (last_index_of c s)) [
  | inl n ↦ let h = rw n at e in ground arith
  | inr (j, m) ↦
      let h : some (suc j) ≡ some (suc i) = rw m at e in
      let same : j ≡ i = cc in
      let rest = last_index_of-split c s i (m ∙ ap some same) in (ap (λ t. d ∷ t) rest.0, rest.1)
]

-- An address that is not bracketed is a host, a colon and a port, neither of them empty nor with a
-- colon, and has no white space.
abbrev pub IsHostPort : Text → Type 0
IsHostPort value =
    (host port : Text) × (value ≡ host ++ b':' ∷ port)
    × (1 ≤ length host)
    × (1 ≤ length port)
    × (includes_unit b':' host ≡ false)
    × (includes_unit b':' port ≡ false)

length-drop_port : (s : Text) (i : ℕ) → suc i < length s → 1 ≤ length (drop (suc i) s)
length-drop_port s i h = rw (length-drop (suc i) s) (omega arith)

length-take_host : (s : Text) (i : ℕ) → 1 ≤ i → i < length s → 1 ≤ length (take i s)
length-take_host s i h k = rw (length-take i s) (omega arith)

separated_bounds :
    (value : Text) (i : ℕ)
    → separated value (some i) ≡ true
    → (1 ≤ i) × (suc i < length value) × (includes_unit b':' (take i value) ≡ false)
unfolding separated
separated_bounds value i e = ground arith

separated-IsHostPort :
    (value : Text) (o : Option ℕ)
    → last_index_of b':' value ≡ o
    → separated value o ≡ true
    → IsHostPort value
unfolding separated
separated-IsHostPort value none e h = cc
separated-IsHostPort value (some i) e h =
    let (low, high, host) = separated_bounds value i h in
    let (split, port) = last_index_of-split b':' value i e in
    (
      take i value,
      drop (suc i) value,
      split,
      length-take_host value i low (omega arith),
      length-drop_port value i high,
      host,
      port,
    )

-- An address that does not start with a bracket and passes is a host, a colon and a port, neither
-- of them empty nor with a colon, and holds no white space.
pub is_host_port-IsHostPort :
    (value : Text)
    → starts_with (codes "[") value ≡ false
    → is_host_port value ≡ true
    → IsHostPort value × (any is_space value ≡ false)
unfolding is_host_port
is_host_port-IsHostPort value b h = elim (Bool-cases (any is_space value)) [
  | inl e ↦ let absurd = rw e at h in cc
  | inr e ↦
      let passed = rw (e, b) at h in
      (separated-IsHostPort value (last_index_of b':' value) refl passed, e)
]

module _ (z : Zod) where
  -- An address of RCON is accepted exactly if its trimmed text has 1 to 512 units and the form of an
  -- address, and what is sent is the trimmed text.
  pub rcon_address_schema_iff :
      (t u : Text)
      → (verdict (z.safe_parse (rcon_address_schema z) t) ≡ accept u)
        ↔ ((u ≡ trim t) × (1 ≤ length u) × (length u ≤ 512) × (is_host_port u ≡ true))
  unfolding rcon_address_schema
  rcon_address_schema_iff t u =
      let known : verdict (z.safe_parse (rcon_address_schema z) t)
          ≡ check is_host_port (codes "RCON address must use host:port format.") (
              check (λ v. leb (length v) 512) (codes "RCON address is too long.")
                (check (λ v. leb 1 (length v)) (codes "RCON address is required.")
                  (alter trim (accept t)))) =
        simp (z.refine_law, z.max_law, z.min_law, z.trimmed_law, z.string_law) in
      rw known (ground arith)
