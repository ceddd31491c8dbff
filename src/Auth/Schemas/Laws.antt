-- ===== src/Auth/Schemas/Laws.antt =====
-- What the schemas of credentials accept.
use blockops.Prelude.{
  ◌≤◌, ◌≡◌, refl, ◌∙◌, ap, ap₂, sym, ◌↔◌, true, List, [], ◌∷◌, length, leb, arith,
}
use blockops.Js.Text.{Text}
use blockops.Js.Utf8.{utf8_length}
use blockops.Zod.{Verdict, accept, reject, verdict, check, accepted, add_field, Zod}
use blockops.Zod.Laws.{two_fields}
use blockops.Auth.Schemas.{
  username_pattern, username_message, password_required, password_too_long, password_too_short,
  password_too_simple, Letters, categories, username_schema, password_schema,
  strong_password_schema, parse_login, parse_setup,
}

add_two-accepted :
    (v w : Verdict Text) (ts : List Text)
    → add_field v (add_field w (accepted [])) ≡ accepted ts
    → (a b : Text) × (v ≡ accept a) × (w ≡ accept b) × (ts ≡ a ∷ b ∷ [])
add_two-accepted (accept a) (accept b) ts e = ground arith
add_two-accepted (accept a) (reject m) ts e = ground arith
add_two-accepted (reject m) (accept b) ts e = ground arith
add_two-accepted (reject m) (reject n) ts e = ground arith

module _ (z : Zod) where
  username_verdict :
      (t : Text)
      → verdict (z.safe_parse (username_schema z) t)
        ≡ check username_pattern username_message (accept t)
  unfolding username_schema
  username_verdict t = simp (z.regex_law, z.string_law)

  password_verdict :
      (t : Text)
      → verdict (z.safe_parse (password_schema z) t)
        ≡ check
            (λ p. leb (utf8_length p) 256)
            password_too_long
            (check (λ p. leb 1 (length p)) password_required (accept t))
  unfolding password_schema
  password_verdict t = simp (z.refine_law, z.min_law, z.string_law)

  strong_verdict :
      (l : Letters) (t : Text)
      → verdict (z.safe_parse (strong_password_schema z l) t)
        ≡ check
            (λ p. leb 3 (categories l p))
            password_too_simple
            (check
              (λ p. leb 12 (utf8_length p))
              password_too_short
              (check
                (λ p. leb (utf8_length p) 256)
                password_too_long
                (check (λ p. leb 1 (length p)) password_required (accept t))))
  unfolding strong_password_schema password_schema
  strong_verdict l t = simp (z.refine_law, z.min_law, z.string_law)

  username_iff :
      (t u : Text)
      → (verdict (z.safe_parse (username_schema z) t) ≡ accept u)
        ↔ ((u ≡ t) × (username_pattern t ≡ true))
  username_iff t u = rw (username_verdict t) (ground arith)

  password_iff :
      (t u : Text)
      → (verdict (z.safe_parse (password_schema z) t) ≡ accept u)
        ↔ ((u ≡ t) × (1 ≤ length t) × (utf8_length t ≤ 256))
  password_iff t u = rw (password_verdict t) (ground arith)

  strong_iff :
      (l : Letters) (t u : Text)
      → (verdict (z.safe_parse (strong_password_schema z l) t) ≡ accept u) ↔ (
          (u ≡ t)
          × (1 ≤ length t)
          × (12 ≤ utf8_length t)
          × (utf8_length t ≤ 256)
          × (3 ≤ categories l t))
  strong_iff l t u = rw (strong_verdict l t) (ground arith)

  pub parse_login-same :
      (name password : Text) (ts : List Text)
      → parse_login z name password ≡ accepted ts
      → ts ≡ name ∷ password ∷ []
  unfolding parse_login
  parse_login-same name password ts e =
      let (a, b, n, p, t) = add_two-accepted _ _ ts (rw two_fields at e) in
      let (na, _) = (username_iff name a).0 n in
      let (pb, _, _) = (password_iff password b).0 p in t ∙ ap₂ (λ x y. x ∷ y ∷ []) na pb

  -- The administrator can be created with a username and a password exactly if the username matches
  -- the pattern and the password has 12 to 256 bytes from at least three of the four categories;
  -- what is sent is what was typed, and the same credentials pass the login form afterwards.
  pub parse_setup_iff :
      (l : Letters) (name password : Text) (ts : List Text)
      → (parse_setup z l name password ≡ accepted ts) ↔ (
          (ts ≡ name ∷ password ∷ [])
          × (parse_login z name password ≡ accepted ts)
          × (username_pattern name ≡ true)
          × (1 ≤ length password)
          × (12 ≤ utf8_length password)
          × (utf8_length password ≤ 256)
          × (3 ≤ categories l password))
  unfolding parse_setup parse_login
  parse_setup_iff l name password ts = (
    λ e.
        let (a, b, n, p, t) = add_two-accepted _ _ ts (rw two_fields at e) in
        let (na, np) = (username_iff name a).0 n in
        let (pb, one, low, high, three) = (strong_iff l password b).0 p in
        let same : ts ≡ name ∷ password ∷ [] = t ∙ ap₂ (λ x y. x ∷ y ∷ []) na pb in
        let named = (username_iff name name).1 (refl, np) in
        let login = (password_iff password password).1 (refl, one, high) in
        (
          same,
          two_fields z _ _ name password
              ∙ ap₂ (λ v w. add_field v (add_field w (accepted []))) named login
              ∙ ap accepted (sym same),
          np,
          one,
          low,
          high,
          three,
        ),
    λ h.
        let (same, _, np, one, low, high, three) = h in
        let named = (username_iff name name).1 (refl, np) in
        let strong = (strong_iff l password password).1 (refl, one, low, high, three) in
        two_fields z _ _ name password
        ∙ ap₂ (λ v w. add_field v (add_field w (accepted []))) named strong
        ∙ ap accepted (sym same),
  )
