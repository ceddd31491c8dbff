-- ===== src/Settings/NewUser/Laws.antt =====
-- What the form of a new user sends, and what it forgets.
use blockops.Prelude.{◌≤◌, ◌≡◌, ◌≢◌, sym, inl, inr, refl, true, List, [], ◌∷◌, All, arith}
use blockops.Js.Text.{Text}
use blockops.Js.Utf8.{utf8_length}
use blockops.Zod.{Zod, ObjectParsed, accepted, rejected}
use blockops.Query.{succeeded, pending-cases, Mutation}
use blockops.Auth.Permissions.{Role, viewer}
use blockops.Auth.Schemas.{Letters, parse_setup, username_pattern, categories}
use blockops.Auth.Schemas.Laws.{parse_setup_iff}
use blockops.Settings.NewUser.{
  CreateUserRequest, Request, valid, invalid, with_role, parse_request, Form, initial_form,
  edit_create_field, type_username, type_password, choose_role, submit_parsed, submit, resolved,
  FormEvent, username_typed, password_typed, role_chosen, submitted, created, refused, handle, run,
}

-- What the server asks of a new user.
pub record IsAdmissible (l : Letters) (r : CreateUserRequest) : Type 0 where
  pub named : username_pattern r.username ≡ true
  pub long : 12 ≤ utf8_length r.password
  pub short : utf8_length r.password ≤ 256
  pub mixed : 3 ≤ categories l r.password

with_role-valid :
    (role : Role) (o : ObjectParsed) (r : CreateUserRequest)
    → with_role role o ≡ valid r
    → o ≡ accepted (r.username ∷ r.password ∷ [])
with_role-valid role (accepted []) r e = absurd cc
with_role-valid role (accepted (u ∷ [])) r e = absurd cc
with_role-valid role (accepted (u ∷ p ∷ [])) r e = ground arith
with_role-valid role (accepted (u ∷ p ∷ q ∷ ts)) r e = absurd cc
with_role-valid role (rejected []) r e = absurd cc
with_role-valid role (rejected (u ∷ [])) r e = absurd cc
with_role-valid role (rejected (u ∷ p ∷ [])) r e = absurd cc
with_role-valid role (rejected (u ∷ p ∷ q ∷ ts)) r e = absurd cc

parse_request-IsAdmissible :
    (z : Zod) (l : Letters) (u p : Text) (role : Role) (r : CreateUserRequest)
    → parse_request z l u p role ≡ valid r
    → IsAdmissible l r
unfolding parse_request
parse_request-IsAdmissible z l u p role r e =
    let a = with_role-valid role (parse_setup z l u p) r e in
    let (same, _, np, one, low, high, three) =
      (parse_setup_iff z l u p (r.username ∷ r.password ∷ [])).0 a in
    let un : r.username ≡ u = cc in
    let pw : r.password ≡ p = cc in
    record { named = rw un np; long = rw pw low; short = rw pw high; mixed = rw pw three }

module _ {E : Type 0} (z : Zod) (l : Letters) (m : Mutation CreateUserRequest E) where
  -- A success that shows leaves no name and no password in the form.
  abbrev pub IsForgetful : Form m → Type 0
  IsForgetful f =
      m.status f.create ≡ succeeded → (f.username ≡ []) × (f.password ≡ []) × (f.role ≡ viewer)

  edit_create_field-unsettled : (f : Form m) → m.status (edit_create_field m f).create ≢ succeeded
  unfolding edit_create_field
  edit_create_field-unsettled f h = let after = m.reset_status f.create in ground arith

  submit_parsed-IsForgetful : (r : Request) (f : Form m) → IsForgetful (submit_parsed m r f)
  unfolding submit_parsed
  submit_parsed-IsForgetful (valid r) f h = absurd cc (h, m.mutate_status r f.create)
  submit_parsed-IsForgetful (invalid es) f h = absurd cc (h, m.reset_status f.create)

  handle-IsForgetful :
      (e : FormEvent E) (f : Form m) → IsForgetful f → IsForgetful (handle z l m e f)
  unfolding handle type_username type_password choose_role submit resolved
  handle-IsForgetful (username_typed t) f k h = absurd (edit_create_field-unsettled f h)
  handle-IsForgetful (password_typed t) f k h = absurd (edit_create_field-unsettled f h)
  handle-IsForgetful (role_chosen r) f k h = absurd (edit_create_field-unsettled f h)
  handle-IsForgetful submitted f k h =
      let parsed = submit_parsed-IsForgetful (parse_request z l f.username f.password f.role) f in
      ground arith
  handle-IsForgetful created f k h = elim (pending-cases (m.status f.create)) [
    | inl p ↦ ground arith
    | inr n ↦ let same = m.resolve_detached f.create n in ground arith
  ]
  handle-IsForgetful (refused e) f k h = elim (pending-cases (m.status f.create)) [
    | inl p ↦ absurd cc (h, m.reject_status e f.create p)
    | inr n ↦ k (rw (sym (m.reject_detached e f.create n)) h)
  ]

  submit_parsed-sent :
      (r : Request) (f : Form m)
      → ((q : CreateUserRequest) → r ≡ valid q → IsAdmissible l q)
      → All (IsAdmissible l) f.sent
      → All (IsAdmissible l) (submit_parsed m r f).sent
  unfolding submit_parsed
  submit_parsed-sent (valid r) f h k = (h r refl, k)
  submit_parsed-sent (invalid es) f h k = k

  handle-sent :
      (e : FormEvent E) (f : Form m)
      → All (IsAdmissible l) f.sent
      → All (IsAdmissible l) (handle z l m e f).sent
  unfolding handle type_username type_password choose_role edit_create_field submit resolved
  handle-sent (username_typed t) f k = ground arith
  handle-sent (password_typed t) f k = ground arith
  handle-sent (role_chosen r) f k = ground arith
  handle-sent submitted f k =
      let parsed =
        submit_parsed-sent (parse_request z l f.username f.password f.role) f
          (λ q. parse_request-IsAdmissible z l f.username f.password f.role q) k in
      ground arith
  handle-sent created f k = ground arith
  handle-sent (refused e) f k = k

  run-Both :
      (es : List (FormEvent E)) (f : Form m)
      → IsForgetful f
      → All (IsAdmissible l) f.sent
      → IsForgetful (run z l m es f) × All (IsAdmissible l) (run z l m es f).sent
  run-Both [] f h k = (h, k)
  run-Both (e ∷ es) f h k =
      run-Both es (handle z l m e f) (handle-IsForgetful e f h) (handle-sent e f k)

-- After any events, every user the form has asked for has a name of the pattern and a password of
-- 12 to 256 bytes in three categories, and while the form reports success its name and password are
-- empty and its role is the viewer's.
pub run-IsForgetful :
    {E : Type 0} (z : Zod) (l : Letters) (m : Mutation CreateUserRequest E)
    (es : List (FormEvent E))
    → IsForgetful z l m (run z l m es (initial_form m))
      × All (IsAdmissible l) (run z l m es (initial_form m)).sent
run-IsForgetful z l m es =
    run-Both z l m es (initial_form m) (λ h. absurd cc (h, m.initial_status)) tt
