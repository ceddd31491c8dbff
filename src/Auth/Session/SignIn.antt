-- ===== src/Auth/Session/SignIn.antt =====
-- The form of auth-form.tsx over `setup` and `login` of auth-api.ts, which parse once more.
use blockops.Prelude.{◌≡◌, refl, ◌⊎◌, inl, inr, none, some, List, [], ◌∷◌}
use blockops.Js.Text.{Text}
use blockops.Zod.{Zod, ObjectParsed, accepted, rejected}
use blockops.Api.Client.{post, json, build_request}
use blockops.Auth.Schemas.{Letters}
use blockops.Auth.Schemas.Laws.{parse_setup_iff, parse_login-same}
use blockops.Auth.Form.{
  Mode, setup, login, Credentials, AuthForm, parse_credentials, submit_parsed, submit,
}
use blockops.Auth.Session.{Cache, csrf_token, mode_path, parsed_credentials, sign_in_request}

parse_credentials-same :
    (z : Zod) (l : Letters) (mode : Mode) (u p : Text) (ts : List Text)
    → parse_credentials z l mode u p ≡ accepted ts
    → ts ≡ u ∷ p ∷ []
parse_credentials-same z l setup u p ts e = ((parse_setup_iff z l u p ts).0 e).0
parse_credentials-same z l login u p ts e = parse_login-same z u p ts e

abbrev pub typed : AuthForm → Credentials
typed f = record { username = f.username; password = f.password }

-- What a result of the schema makes the form call and the function send.
abbrev called : ObjectParsed → AuthForm → List Credentials
called o f = (submit_parsed o f).sent

submit_parsed-sent :
    (o : ObjectParsed) (f : AuthForm)
    → ((ts : List Text) → o ≡ accepted ts → ts ≡ f.username ∷ f.password ∷ [])
    → ((called o f ≡ typed f ∷ f.sent) × (parsed_credentials o ≡ some (typed f)))
      ⊎ ((called o f ≡ f.sent) × (parsed_credentials o ≡ none))
unfolding submit_parsed
submit_parsed-sent (accepted ts) f h = rw (h ts refl) (inl (refl, refl))
submit_parsed-sent (rejected []) f h = inr (refl, refl)
submit_parsed-sent (rejected (a ∷ [])) f h = inr (refl, refl)
submit_parsed-sent (rejected (a ∷ b ∷ ms)) f h = inr (refl, refl)

module _ {Json : Type 0} (stringify : Json → Text) (to_json : Credentials → Json) (z : Zod)
    (l : Letters) where
  -- Submitting the form either calls for a sign-in with just what was typed, and then the request with
  -- those credentials is sent, or it calls for none, and then the same credentials would not be sent
  -- either.
  pub submit-sign_in_request :
      (c : Cache) (mode : Mode) (f : AuthForm)
      → (((submit z l mode f).sent ≡ typed f ∷ f.sent)
          × (sign_in_request stringify to_json z l c mode (typed f)
              ≡ some (
                  build_request stringify
                    (csrf_token c)
                    post
                    (mode_path mode)
                    (json (to_json (typed f))))))
        ⊎ (((submit z l mode f).sent ≡ f.sent)
            × (sign_in_request stringify to_json z l c mode (typed f) ≡ none))
  unfolding submit sign_in_request
  submit-sign_in_request c mode f =
      elim (submit_parsed-sent (parse_credentials z l mode f.username f.password) f
        (parse_credentials-same z l mode f.username f.password)) [
          | inl h ↦ inl (h.0, rw (h.1, sign_in_request) refl)
          | inr h ↦ inr (h.0, rw (h.1, sign_in_request) refl)
        ]
