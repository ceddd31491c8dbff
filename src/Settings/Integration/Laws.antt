-- ===== src/Settings/Integration/Laws.antt =====
-- What the form of the RCON credentials sends.
use blockops.Prelude.{◌≤◌, ◌≡◌, refl, Bool, true, List, [], ◌∷◌, All, length, leb, arith}
use blockops.Js.Text.{Text, codes}
use blockops.Js.Utf8.{utf8_length}
use blockops.Zod.{
  Verdict, accept, reject, verdict, check, accepted, rejected, add_field, ObjectParsed, Zod,
}
use blockops.Zod.Laws.{two_fields}
use blockops.Query.{Mutation}
use blockops.Settings.Schema.{is_host_port, rcon_password_schema}
use blockops.Settings.Schema.Laws.{rcon_address_schema_iff}
use blockops.Settings.Integration.{
  RconCredentials, Integration, initial_integration, edit_address, edit_password, submit_parsed,
  resolved, parse_rcon, shown_address, IntegrationEvent, address_typed, password_typed, submitted,
  accepted_, failed, handle, run,
}

-- What the server accepts as credentials.
pub record IsRcon (c : RconCredentials) : Type 0 where
  pub address_bounds : (1 ≤ length c.address) × (length c.address ≤ 512)
  pub address_form : is_host_port c.address ≡ true
  pub password_bounds : (8 ≤ utf8_length c.password) × (utf8_length c.password ≤ 256)

-- The two values that a parsed form sends, if any.
abbrev pub AllRcon : ObjectParsed → Type 0
AllRcon (accepted (a ∷ p ∷ _)) = IsRcon (record { address = a; password = p })
AllRcon _ = Unit

module _ (z : Zod) where
  rcon_password_verdict :
      (t : Text)
      → verdict (z.safe_parse (rcon_password_schema z) t)
        ≡ check
            (λ v. leb (utf8_length v) 256)
            (codes "RCON password must be at most 256 characters.")
            (check
              (λ v. leb 8 (utf8_length v))
              (codes "RCON password must be at least 8 characters.")
              (accept t))
  unfolding rcon_password_schema
  rcon_password_verdict t = simp (z.refine_law, z.string_law)

  fields-AllRcon :
      (v w : Verdict Text)
      → ((a : Text) → v ≡ accept a → (1 ≤ length a) × (length a ≤ 512) × (is_host_port a ≡ true))
      → ((p : Text) → w ≡ accept p → (8 ≤ utf8_length p) × (utf8_length p ≤ 256))
      → AllRcon (add_field v (add_field w (accepted [])))
  fields-AllRcon (accept a) (accept p) h k =
      let (low, high, form) = h a refl in
      record { address_bounds = (low, high); address_form = form; password_bounds = k p refl }
  fields-AllRcon (accept a) (reject n) h k = tt
  fields-AllRcon (reject m) (accept p) h k = tt
  fields-AllRcon (reject m) (reject n) h k = tt

  parse_rcon-AllRcon : (a p : Text) → AllRcon (parse_rcon z a p)
  unfolding parse_rcon
  parse_rcon-AllRcon a p = rw two_fields (
      fields-AllRcon _ _
        (λ u e. let (_, low, high, form) = (rcon_address_schema_iff z a u).0 e in (low, high, form))
        (λ u e. ground (arith, rcon_password_verdict p)))

  submit_parsed-sent :
      {E : Type 0} (m : Mutation RconCredentials E) (o : ObjectParsed) (f : Integration m.State)
      → AllRcon o
      → All IsRcon f.sent
      → All IsRcon (submit_parsed m o f).sent
  unfolding submit_parsed
  submit_parsed-sent m (accepted []) f h k = k
  submit_parsed-sent m (accepted (a ∷ [])) f h k = k
  submit_parsed-sent m (accepted (a ∷ p ∷ ts)) f h k = (h, k)
  submit_parsed-sent m (rejected []) f h k = k
  submit_parsed-sent m (rejected (a ∷ [])) f h k = k
  submit_parsed-sent m (rejected (a ∷ p ∷ ts)) f h k = k

  handle-sent :
      {E : Type 0} (m : Mutation RconCredentials E) (b : Bool) (e : IntegrationEvent E)
      (f : Integration m.State)
      → All IsRcon f.sent
      → All IsRcon (handle z m b e f).sent
  unfolding handle edit_address edit_password resolved
  handle-sent m b (address_typed t) f h = ground arith
  handle-sent m b (password_typed t) f h = ground arith
  handle-sent m b (submitted s) f h = ground (
    arith,
    submit_parsed-sent m (parse_rcon z (shown_address f.edited_address s) f.password) f
        (parse_rcon-AllRcon (shown_address f.edited_address s) f.password) h,
  )
  handle-sent m b accepted_ f h = ground arith
  handle-sent m b (failed e) f h = ground arith

  run-sent' :
      {E : Type 0} (m : Mutation RconCredentials E) (b : Bool) (es : List (IntegrationEvent E))
      (f : Integration m.State)
      → All IsRcon f.sent
      → All IsRcon (run z m b es f).sent
  run-sent' m b [] f h = h
  run-sent' m b (e ∷ es) f h = run-sent' m b es (handle z m b e f) (handle-sent m b e f h)

-- After any events, all credentials that were sent have an address of 1 to 512 units in the form of
-- an address and a password of 8 to 256 bytes.
pub run-sent :
    {E : Type 0} (z : Zod) (m : Mutation RconCredentials E) (b : Bool)
    (es : List (IntegrationEvent E))
    → All IsRcon (run z m b es (initial_integration m)).sent
run-sent z m b es = run-sent' z m b es (initial_integration m) tt
