-- ===== src/Auth/Session/Schema/Laws.antt =====
-- The sessions that the schema lets through.
use blockops.Prelude.{◌≡◌, Bool, true, false, Option, none, some, [], ◌∷◌, length, leb, arith}
use blockops.Js.Text.{Text}
use blockops.Zod.{
  Zod, ObjectParsed, accepted, rejected, Verdict, accept, reject, verdict, check, add_field,
}
use blockops.Zod.Laws.{two_fields}
use blockops.Api.Client.{truthy}
use blockops.Auth.Permissions.{Role}
use blockops.Auth.Session.Schema.{Session, SessionFields, session_of, session_schema, parse_session}

-- A session whose token and server can be used.
pub record IsUsable (s : Session) : Type 0 where
  pub token : truthy (some s.csrf_token) ≡ true
  pub server : truthy (some s.server_id) ≡ true

session_of-accepted :
    (f : SessionFields) (v w : Verdict Text) (o : ObjectParsed) (r : Option Role) (b : Bool)
    (s : Session)
    → session_of f (add_field v (add_field w (accepted []))) o r b ≡ some s
    → (v ≡ accept s.csrf_token) × (w ≡ accept s.server_id)
session_of-accepted f (reject m) (reject n) o r b s e = absurd cc
session_of-accepted f (reject m) (accept t) o r b s e = absurd cc
session_of-accepted f (accept t) (reject n) o r b s e = absurd cc
session_of-accepted f (accept t) (accept u) (rejected ms) r b s e = absurd cc
session_of-accepted f (accept t) (accept u) (accepted []) r b s e = absurd cc
session_of-accepted f (accept t) (accept u) (accepted (x ∷ [])) r b s e = absurd cc
session_of-accepted f (accept t) (accept u) (accepted (x ∷ y ∷ z ∷ zs)) r b s e = absurd cc
session_of-accepted f (accept t) (accept u) (accepted (x ∷ y ∷ [])) none b s e = absurd cc
session_of-accepted f (accept t) (accept u) (accepted (x ∷ y ∷ [])) (some r) false s e = absurd cc
session_of-accepted f (accept t) (accept u) (accepted (x ∷ y ∷ [])) (some r) true s e = ground arith

nonempty-truthy :
    (m t u : Text) → check (λ a. leb 1 (length a)) m (accept t) ≡ accept u → truthy (some u) ≡ true
nonempty-truthy m [] u e = absurd cc
nonempty-truthy m (c ∷ s) u e = ground arith

module _ (z : Zod) (is_datetime : Text → Bool) where
  nonempty_verdict :
      (t : Text)
      → verdict (z.safe_parse (z.min z.string 1 z.default_message) t)
        ≡ check (λ a. leb 1 (length a)) z.default_message (accept t)
  nonempty_verdict t = simp (z.min_law, z.string_law)

  session_schema-IsUsable :
      (f : SessionFields) (s : Session) → session_schema z is_datetime f ≡ some s → IsUsable s
  unfolding session_schema
  session_schema-IsUsable f s e =
      let (t, u) = session_of-accepted f _ _ _ _ _ s (rw two_fields at e) in
      record {
        token =
            nonempty-truthy z.default_message f.csrf_token s.csrf_token (rw nonempty_verdict at t);
        server =
            nonempty-truthy z.default_message f.server_id s.server_id (rw nonempty_verdict at u);
      }

  pub parse_session-IsUsable :
      {Json : Type 0} (object : Json → Option SessionFields) (v : Option Json) (s : Session)
      → parse_session z is_datetime object v ≡ some s
      → IsUsable s
  unfolding parse_session
  parse_session-IsUsable object none s = λ e. absurd cc
  parse_session-IsUsable object (some v) s =
      elim (object v)
        as (λ o.
          elim o [ none ↦ none | some fields ↦ session_schema z is_datetime fields ] ≡ some s
          → IsUsable s) [ none ↦ λ e. absurd cc | some f ↦ λ e. session_schema-IsUsable f s e ]
