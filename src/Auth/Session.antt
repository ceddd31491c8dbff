-- ===== src/Auth/Session.antt =====
-- auth-api.ts, auth-hooks.ts and the getters of app/bootstrap.tsx: the calls for signing in and out,
-- what they leave in the cache, and which token and which server the other calls take from it.
--
-- `Json` is what a body holds. `object` is what the object layers of `sessionSchema` and the types of
-- its fields find in a value, and `is_datetime` is `z.iso.datetime`.
pub mod Schema
pub mod Laws
pub mod SignIn
pub mod Tests
use blockops.Prelude.{ℕ, Bool, true, false, Option, none, some, List, [], ◌∷◌, ◌+◌}
use blockops.Js.Text.{Text, codes}
use blockops.Zod.{Zod, ObjectParsed, accepted}
use blockops.Query.{QueryResult, CacheEntry, Fetching}
use blockops.Api.Error.{ErrorBody, Caught, other}
use blockops.Api.Client.{
  Method, get, post, Body, undefined, json, Request, Response, Outcome, returned, thrown,
  build_request, settle_fetch, parse_outcome,
}
use blockops.Auth.Schemas.{Letters}
use blockops.Auth.Form.{Mode, setup, login, Credentials, parse_credentials}
use blockops.Auth.Boundary.{get_session, authenticated}
use blockops.Auth.Session.Schema.{Session}

-- The entries of the cache for `authKeys.setup()` and `authKeys.session()`.
pub record Cache : Type 0 where
  pub setup : QueryResult Bool Caught
  pub session : QueryResult (Option Session) Caught

abbrev pub empty_cache : Cache
empty_cache = record {
  setup = record { value = none; error = none; fetching = false };
  session = record { value = none; error = none; fetching = false };
}

-- `queryClient.getQueryData<Session>(authKeys.session())`, where `null` is no session
abbrev pub current_session : Cache → Option Session
current_session c = elim c.session.value [ none ↦ none | some s ↦ s ]

-- `getCsrfToken` and `getServerId` as `bootstrap` configures them.
unfoldable pub csrf_token : Cache → Option Text
csrf_token c = elim (current_session c) [ none ↦ none | some s ↦ some s.csrf_token ]

unfoldable pub server_id : Cache → Option Text
server_id c = elim (current_session c) [ none ↦ none | some s ↦ some s.server_id ]

abbrev pub mode_path : Mode → Text
mode_path setup = codes "/api/v1/setup"
mode_path login = codes "/api/v1/auth/login"

-- The value of the schema's `parse`, which throws where the credentials are refused.
abbrev pub parsed_credentials : ObjectParsed → Option Credentials
parsed_credentials (accepted (u ∷ p ∷ [])) = some (record { username = u; password = p })
parsed_credentials _ = none

module _ {Json : Type 0} (stringify : Json → Text) (to_json : Credentials → Json) (z : Zod)
    (l : Letters) where
  -- The request of `setup` and of `login`, if one is sent.
  unfoldable pub sign_in_request : Cache → Mode → Credentials → Option Request
  sign_in_request c mode credentials =
      elim (parsed_credentials
        (parse_credentials z l mode credentials.username credentials.password)) [
          | none ↦ none
          | some body ↦
              some
                (build_request stringify (csrf_token c) post (mode_path mode) (json (to_json body)))
        ]

  unfoldable pub logout_request : Cache → Request
  logout_request c =
      build_request stringify (csrf_token c) post (codes "/api/v1/auth/logout") undefined

  unfoldable pub session_request : Cache → Request
  session_request c =
      build_request stringify (csrf_token c) get (codes "/api/v1/auth/session") undefined

  unfoldable pub setup_status_request : Cache → Request
  setup_status_request c =
      build_request stringify (csrf_token c) get (codes "/api/v1/setup") undefined

-- The document: its cache, its address and how often it was loaded anew.
pub record Document : Type 0 where
  pub cache : Cache
  pub location : Text
  pub reloads : ℕ

-- A document that was just opened at an address.
abbrev pub loaded_at : Text → Document
loaded_at location = record { cache = empty_cache; location = location; reloads = 0 }

-- The events: the fetches of the two queries, the answer to a sign-in and to the sign-out, which
-- `none` stands for where `fetch` rejects.
pub data Event (Json : Type 0) : Type 0 where
  setup_asked session_asked : Event Json
  setup_answered session_answered signed_in signed_out : Option (Response Json) → Event Json

module _ {Json : Type 0} (z : Zod) (shape : Json → ErrorBody)
    (parse_setup_status : Option Json → Option Bool) (parse_session : Option Json → Option Session)
    (fs : Fetching Bool Caught) (f : Fetching (Option Session) Caught) (cs : CacheEntry Bool Caught)
    (c : CacheEntry (Option Session) Caught) where
  -- How the promise of a query function settles its query.
  abbrev pub settle :
      {A : Type 0} → Fetching A Caught → Outcome A → QueryResult A Caught → QueryResult A Caught
  settle g (returned a) q = g.succeed a q
  settle g (thrown e) q = g.fail e q

  abbrev pub outcome : {A : Type 0} → (Option Json → Option A) → Option (Response Json) → Outcome A
  outcome parse response = parse_outcome z shape parse (settle_fetch z shape response)

  -- `useAuthenticationMutation`, which does nothing to the cache where the call failed.
  unfoldable pub on_signed_in : Outcome Session → Cache → Cache
  unfolding authenticated
  on_signed_in (thrown e) cache = cache
  on_signed_in (returned s) cache =
      let (a, b) = authenticated cs c s (cache.setup, cache.session) in
      record { setup = a; session = b }

  -- `onSettled` of `useLogoutMutation`: whatever the answer, the document starts again.
  unfoldable pub on_signed_out : Document → Document
  on_signed_out d = record {
    cache = empty_cache;
    location = codes "/overview";
    reloads = d.reloads + 1;
  }

  unfoldable pub handle : Event Json → Document → Document
  unfolding settle_fetch parse_outcome get_session on_signed_in on_signed_out
  handle setup_asked d = record d { cache = record d.cache { setup = fs.start d.cache.setup } }
  handle session_asked d = record d { cache = record d.cache { session = f.start d.cache.session } }
  handle (setup_answered r) d = record d {
    cache = record d.cache { setup = settle fs (outcome parse_setup_status r) d.cache.setup };
  }
  handle (session_answered r) d = record d {
    cache = record d.cache {
      session = settle f (get_session (outcome parse_session r)) d.cache.session;
    };
  }
  handle (signed_in r) d = record d { cache = on_signed_in (outcome parse_session r) d.cache }
  handle (signed_out r) d = on_signed_out d

  abbrev pub run : List (Event Json) → Document → Document
  run [] d = d
  run (e ∷ es) d = run es (handle e d)
