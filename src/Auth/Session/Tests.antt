-- ===== src/Auth/Session/Tests.antt =====
-- Sessions at concrete arguments. A value of the API is the fields of a session, or none.
use blockops.Prelude.{ℕ, ◌≡◌, ◌≢◌, refl, ◌⊎◌, Bool, true, false, Option, none, some, List, [], ◌∷◌}
use blockops.Js.Text.{Text, codes, in_range}
use blockops.Zod.Direct.{direct}
use blockops.Query.{CacheEntry, Fetching}
use blockops.Api.Error.{ErrorBody, malformed, Caught, api}
use blockops.Api.Client.{
  post, undefined, json, Response, csrf_header, get_header, build_request, interpret_value, thrown,
}
use blockops.Api.ServerPath.{server_path, no_server}
use blockops.Auth.Permissions.{operator}
use blockops.Auth.Schemas.{Letters, username_pattern}
use blockops.Auth.Boundary.{authentication_boundary, outlet}
use blockops.Auth.Form.{login, Credentials, AuthForm, initial_form, submit}
use blockops.Auth.Session.{
  Event, setup_asked, setup_answered, session_asked, session_answered, signed_in, empty_cache,
  handle, csrf_token, server_id, mode_path, sign_in_request,
}
use blockops.Auth.Session.Schema.{SessionFields, Session, parse_session, role_schema}
use blockops.Auth.Session.Laws.{cache_after, run-carried}
use blockops.Auth.Session.SignIn.{typed, submit-sign_in_request}

abbrev Json : Type 0
Json = Option SessionFields

abbrev to_text : Json → Text
to_text none = []
to_text (some s) = s.username

abbrev no_shape : Json → ErrorBody
no_shape v = malformed

abbrev any_datetime : Text → Bool
any_datetime t = true

abbrev fields_of : Json → Option SessionFields
fields_of v = v

abbrev not_required : Option Json → Option Bool
not_required v = some false

abbrev fetching : (A : Type 0) → Fetching A Caught
fetching A = record {
  start = λ q. record q { fetching = true };
  succeed = λ a q. record { value = some a; error = none; fetching = false };
  fail = λ e q. record q { error = some e; fetching = false };
  start_value = λ q. refl;
  succeed_value = λ a q. refl;
  succeed_error = λ a q. refl;
  fail_value = λ e q. refl;
  fail_error = λ e q. refl;
}

abbrev cached : (A : Type 0) → CacheEntry A Caught
cached A = record {
  set_data = λ a q. record { value = some a; error = none; fetching = q.fetching };
  set_value = λ a q. refl;
  set_error = λ a q. refl;
}

abbrev ada : SessionFields
ada = record {
  id = codes "1";
  username = codes "ada";
  role = codes "operator";
  disabled = false;
  created_at = codes "2026-01-01T00:00:00Z";
  csrf_token = codes "token";
  expires_at = codes "2026-01-02T00:00:00Z";
  server_id = codes "local";
}

abbrev session : Session
session = record {
  user = record {
    id = codes "1";
    username = codes "ada";
    role = operator;
    disabled = false;
    created_at = codes "2026-01-01T00:00:00Z";
  };
  csrf_token = codes "token";
  expires_at = codes "2026-01-02T00:00:00Z";
  server_id = codes "local";
}

abbrev answered : ℕ → Json → Option (Response Json)
answered status v = some (record { status = status; value = some v })

-- Nobody is signed in; then somebody signs in, and a later fetch of the session fails.
abbrev events : List (Event Json)
events =
    setup_asked
    ∷ setup_answered (answered 200 none)
    ∷ session_asked
    ∷ session_answered (answered 401 none)
    ∷ signed_in (answered 200 (some ada))
    ∷ session_answered none
    ∷ []

abbrev place : Text
place = codes "/console"

shown :
    (let c =
        cache_after direct no_shape any_datetime fields_of not_required
          (fetching Bool)
          (fetching (Option Session))
          (cached Bool)
          (cached (Option Session))
          place
          events in
      authentication_boundary c.setup c.session)
    ≡ outlet session
unfolding authentication_boundary handle interpret_value parse_session username_pattern role_schema
shown = refl

run-carried_example :
    (get_header csrf_header
        (build_request to_text
          (csrf_token (
            cache_after direct no_shape any_datetime fields_of not_required
              (fetching Bool)
              (fetching (Option Session))
              (cached Bool)
              (cached (Option Session))
              place
              events))
          post
          (codes "/x")
          undefined).headers
      ≡ some (codes "token"))
    × (server_path
          (server_id (
            cache_after direct no_shape any_datetime fields_of not_required
              (fetching Bool)
              (fetching (Option Session))
              (cached Bool)
              (cached (Option Session))
              place
              events))
          (codes "/x")
        ≢ thrown (api no_server))
run-carried_example =
    run-carried direct no_shape any_datetime fields_of not_required (fetching Bool)
      (fetching (Option Session)) (cached Bool) (cached (Option Session)) to_text place events
      session post (codes "/x") undefined shown refl

abbrev latin : Letters
latin = record {
  is_lower = in_range b'a' b'z';
  is_upper = in_range b'A' b'Z';
  is_digit = in_range b'0' b'9';
}

abbrev form : AuthForm
form = record initial_form { username = codes "ada"; password = codes "secret" }

abbrev body_of : Credentials → Json
body_of c = some (record ada { username = c.username })

submit-sign_in_request_example :
    (((submit direct latin login form).sent ≡ typed form ∷ [])
      × (sign_in_request to_text body_of direct latin empty_cache login (typed form)
          ≡ some (
              build_request to_text
                (csrf_token empty_cache)
                post
                (mode_path login)
                (json (body_of (typed form))))))
    ⊎ (((submit direct latin login form).sent ≡ [])
        × (sign_in_request to_text body_of direct latin empty_cache login (typed form) ≡ none))
submit-sign_in_request_example =
    submit-sign_in_request to_text body_of direct latin empty_cache login form
