-- ===== src/Auth/Session/Laws.antt =====
-- What the cached session gives to the calls of the application.
use blockops.Prelude.{
  ◌≡◌, ◌≢◌, refl, ◌∙◌, ap, Bool, true, false, Option, none, some, List, [], ◌∷◌, ◌==◌,
  if◌then◌else◌,
}
use blockops.Js.Text.{Text}
use blockops.Zod.{Zod}
use blockops.Query.{QueryResult, CacheEntry, Fetching}
use blockops.Api.Error.{ErrorBody, Caught, api, other}
use blockops.Api.Client.{
  Method, is_get, Body, Response, Outcome, returned, thrown, truthy, csrf_header, get_header,
  build_request, settle_fetch, parse_outcome, parse_api_response,
}
use blockops.Api.Client.Laws.{build_request-headers}
use blockops.Api.ServerPath.{server_path, no_server}
use blockops.Api.ServerPath.Laws.{server_path-no_server_iff}
use blockops.Auth.Boundary.{
  authentication_boundary, outlet, get_session, authentication_boundary-outlet_iff,
}
use blockops.Auth.Session.Schema.{Session, SessionFields, parse_session}
use blockops.Auth.Session.Schema.Laws.{IsUsable, parse_session-IsUsable}
use blockops.Auth.Session.{
  Cache, loaded_at, csrf_token, server_id, Document, Event, setup_asked, session_asked,
  setup_answered, session_answered, signed_in, signed_out, settle, on_signed_in, on_signed_out,
  handle, run,
}

abbrev AllUsable : Option (Option Session) → Type 0
AllUsable (some (some s)) = IsUsable s
AllUsable _ = Unit

-- What a call for a session returns.
abbrev AllReturned : Outcome Session → Type 0
AllReturned (returned s) = IsUsable s
AllReturned (thrown e) = Unit

current_session-IsUsable :
    (c : Cache) (s : Session)
    → AllUsable c.session.value
    → c.session.value ≡ some (some s)
    → IsUsable s
current_session-IsUsable c s h e = rw e at h

module _ {Json : Type 0} (z : Zod) (shape : Json → ErrorBody)
    (parse_setup_status : Option Json → Option Bool) (parse : Option Json → Option Session)
    (fs : Fetching Bool Caught) (f : Fetching (Option Session) Caught) (cs : CacheEntry Bool Caught)
    (c : CacheEntry (Option Session) Caught)
    (parse-IsUsable : (v : Option Json) (s : Session) → parse v ≡ some s → IsUsable s) where
  parsed-Usable :
      (v : Option Json) (o : Option Session)
      → parse v ≡ o
      → AllReturned (parse_api_response z shape o)
  unfolding parse_api_response
  parsed-Usable v none e = tt
  parsed-Usable v (some s) e = parse-IsUsable v s e

  parse_outcome-Usable : (o : Outcome (Option Json)) → AllReturned (parse_outcome z shape parse o)
  unfolding parse_outcome
  parse_outcome-Usable (thrown e) = tt
  parse_outcome-Usable (returned v) = parsed-Usable v (parse v) refl

  abbrev outcome_value :
      Outcome (Option Session) → QueryResult (Option Session) Caught → Option (Option Session)
  outcome_value o q = (settle z shape parse_setup_status parse fs f cs c f o q).value

  get_session-Usable :
      (o : Outcome Session) (q : QueryResult (Option Session) Caught)
      → AllReturned o
      → AllUsable q.value
      → AllUsable (outcome_value (get_session o) q)
  unfolding get_session
  get_session-Usable (returned s) q h k = rw (f.succeed_value (some s) q) h
  get_session-Usable (thrown other) q h k = rw (f.fail_value other q) k
  get_session-Usable (thrown (api e)) q h k =
      elim (e.status == 401)
        as (λ b. AllUsable (outcome_value (if b then returned none else thrown (api e)) q)) [
          | true ↦ rw (f.succeed_value none q) tt
          | false ↦ rw (f.fail_value (api e) q) k
        ]

  on_signed_in-Usable :
      (o : Outcome Session) (a : Cache)
      → AllReturned o
      → AllUsable a.session.value
      → AllUsable (on_signed_in z shape parse_setup_status parse fs f cs c o a).session.value
  unfolding on_signed_in
  on_signed_in-Usable (returned s) a h k = rw (c.set_value (some s) a.session) h
  on_signed_in-Usable (thrown e) a h k = k

  abbrev step : Event Json → Document → Document
  step e d = handle z shape parse_setup_status parse fs f cs c e d

  outcome-Usable :
      (r : Option (Response Json))
      → AllReturned (parse_outcome z shape parse (settle_fetch z shape r))
  outcome-Usable r = parse_outcome-Usable (settle_fetch z shape r)

  handle-Usable :
      (e : Event Json) (d : Document)
      → AllUsable d.cache.session.value
      → AllUsable (step e d).cache.session.value
  unfolding handle on_signed_out
  handle-Usable setup_asked d h = h
  handle-Usable session_asked d h = rw (f.start_value d.cache.session) h
  handle-Usable (setup_answered r) d h = h
  handle-Usable (session_answered r) d h = get_session-Usable _ d.cache.session (outcome-Usable r) h
  handle-Usable (signed_in r) d h = on_signed_in-Usable _ d.cache (outcome-Usable r) h
  handle-Usable (signed_out r) d h = tt

  run-Usable :
      (es : List (Event Json)) (d : Document)
      → AllUsable d.cache.session.value
      → AllUsable (run z shape parse_setup_status parse fs f cs c es d).cache.session.value
  run-Usable [] d h = h
  run-Usable (e ∷ es) d h = run-Usable es (step e d) (handle-Usable e d h)

csrf_token-session :
    (c : Cache) (s : Session) → c.session.value ≡ some (some s) → csrf_token c ≡ some s.csrf_token
unfolding csrf_token
csrf_token-session c s e = rw e refl

server_id-session :
    (c : Cache) (s : Session) → c.session.value ≡ some (some s) → server_id c ≡ some s.server_id
unfolding server_id
server_id-session c s e = rw e refl

-- A call that is no read carries the token, and the session's server is there.
session-carried :
    {Json : Type 0} (stringify : Json → Text) (c : Cache) (s : Session) (m : Method) (path : Text)
    (body : Body Json)
    → c.session.value ≡ some (some s)
    → IsUsable s
    → is_get m ≡ false
    → (get_header csrf_header (build_request stringify (csrf_token c) m path body).headers
        ≡ some s.csrf_token)
      × (server_path (server_id c) path ≢ thrown (api no_server))
session-carried stringify c s m path body e h k =
    let t = csrf_token-session c s e in
    let (_, carried, _, _, _, _, _) = build_request-headers stringify (csrf_token c) m path body in
    (
      carried k (rw t h.token) ∙ t,
      λ n. absurd cc (
        (server_path-no_server_iff (server_id c) path).0 n,
        ap truthy (server_id-session c s e),
        h.server,
      ),
    )

module _ {Json : Type 0} (z : Zod) (shape : Json → ErrorBody) (is_datetime : Text → Bool)
    (object : Json → Option SessionFields) (parse_setup_status : Option Json → Option Bool)
    (fs : Fetching Bool Caught) (f : Fetching (Option Session) Caught) (cs : CacheEntry Bool Caught)
    (c : CacheEntry (Option Session) Caught) where
  -- The cache after some events since the document was loaded.
  abbrev pub cache_after : Text → List (Event Json) → Cache
  cache_after place es =
      (run z shape parse_setup_status (parse_session z is_datetime object) fs f cs c es
        (loaded_at place)).cache

  -- However the setup status, the session, sign-ins and sign-outs were answered: while the
  -- application is shown with a session, a call that is no read carries that session's token, and a
  -- path below the server does not fail for want of a server.
  pub run-carried :
      (stringify : Json → Text) (place : Text) (es : List (Event Json)) (s : Session) (m : Method)
      (path : Text) (body : Body Json)
      → authentication_boundary (cache_after place es).setup (cache_after place es).session
        ≡ outlet s
      → is_get m ≡ false
      → (get_header csrf_header
            (build_request stringify (csrf_token (cache_after place es)) m path body).headers
          ≡ some s.csrf_token)
        × (server_path (server_id (cache_after place es)) path ≢ thrown (api no_server))
  run-carried stringify place es s m path body h k =
      let after = cache_after place es in
      let held = ((authentication_boundary-outlet_iff after.setup after.session s).0 h).0 in
      let usable =
        run-Usable z shape parse_setup_status (parse_session z is_datetime object) fs f cs c
          (parse_session-IsUsable z is_datetime object) es (loaded_at place) tt in
      session-carried stringify after s m path body held
        (current_session-IsUsable after s usable held) k
