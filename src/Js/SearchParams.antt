-- ===== src/Js/SearchParams.antt =====
-- `URLSearchParams` as the list of its pairs: `get` takes the first value of a name, and `set` converts
-- the value to a `USVString`, keeps the place of the first and removes the others. The names, which
-- are converted too, are ASCII wherever the source calls them.
use blockops.Prelude.{
  ◌≡◌, refl, ap, sym, subst, true, false, not, Option, none, some, List, [], ◌∷◌, select,
  Bool-cases, inl, inr, if◌then◌else◌,
}
use blockops.Js.Text.{Text, same_text}
use blockops.Js.Text.Laws.{same_text_iff}
use blockops.Js.Usv.{to_usv_string}

abbrev pub SearchParams : Type 0
SearchParams = List (Text × Text)

abbrev pub get : Text → SearchParams → Option Text
get name [] = none
get name ((n, v) ∷ ps) = let rest = get name ps in if same_text n name then some v else rest

abbrev pub remove : Text → SearchParams → SearchParams
remove name ps = select (λ p. not (same_text p.0 name)) ps

-- `set` with a value that is converted already
abbrev pub put : Text → Text → SearchParams → SearchParams
put name v [] = (name, v) ∷ []
put name v ((n, w) ∷ ps) =
    let rest = put name v ps in if same_text n name then (n, v) ∷ remove name ps else (n, w) ∷ rest

unfoldable pub set : Text → Text → SearchParams → SearchParams
set name v ps = put name (to_usv_string v) ps

get-put : (name v : Text) (ps : SearchParams) → get name (put name v ps) ≡ some v
get-put name v [] = rw ((same_text_iff name name).1 refl) refl
get-put name v ((n, w) ∷ ps) = elim (Bool-cases (same_text n name)) [
  | inl e ↦ rw e (rw e refl)
  | inr e ↦ rw e (rw e (get-put name v ps))
]

pub get-set :
    (name v : Text) (ps : SearchParams) → get name (set name v ps) ≡ some (to_usv_string v)
unfolding set
get-set name v ps = get-put name (to_usv_string v) ps

-- The name that was set or removed is not the other one.
still_other :
    (n name other_ : Text)
    → same_text n name ≡ true
    → same_text name other_ ≡ false
    → same_text n other_ ≡ false
still_other n name other_ e h =
    subst (λ x. same_text x other_ ≡ false) (sym ((same_text_iff n name).0 e)) h

get-remove :
    (other_ name : Text) (ps : SearchParams)
    → same_text name other_ ≡ false
    → get other_ (remove name ps) ≡ get other_ ps
get-remove other_ name [] h = refl
get-remove other_ name ((n, w) ∷ ps) h = elim (Bool-cases (same_text n name)) [
  | inl e ↦ rw e (rw (still_other n name other_ e h) (get-remove other_ name ps h))
  | inr e ↦ rw e (ap (λ o. if same_text n other_ then some w else o) (get-remove other_ name ps h))
]

get-put_other :
    (other_ name v : Text) (ps : SearchParams)
    → same_text name other_ ≡ false
    → get other_ (put name v ps) ≡ get other_ ps
get-put_other other_ name v [] h = rw h refl
get-put_other other_ name v ((n, w) ∷ ps) h = elim (Bool-cases (same_text n name)) [
  | inl e ↦ rw e (rw (still_other n name other_ e h) (get-remove other_ name ps h))
  | inr e ↦
      rw e (ap (λ o. if same_text n other_ then some w else o) (get-put_other other_ name v ps h))
]

pub get-set_other :
    (other_ name v : Text) (ps : SearchParams)
    → same_text name other_ ≡ false
    → get other_ (set name v ps) ≡ get other_ ps
unfolding set
get-set_other other_ name v ps h = get-put_other other_ name (to_usv_string v) ps h
