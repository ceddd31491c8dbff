-- ===== src/Auth/Boundary.antt =====
-- authentication-boundary.tsx, auth-hooks.ts and `getSession` of auth-api.ts: which screen is shown,
-- and how a sign-in gets there. A session is a parameter: it is shown, never read.
use blockops.Prelude.{
  ◌≡◌, ◌≢◌, ◌↔◌, Bool, true, false, not, ◌&&◌, ◌||◌, Option, none, some, ◌==◌, arith, if◌then◌else◌,
}
use blockops.Query.{QueryResult, is_loading, CacheEntry}
use blockops.Api.Error.{ApiError, api, other}
use blockops.Api.Client.{Outcome, returned, thrown}

pub data Screen (S E : Type 0) : Type 0 where
  starting setup_screen login_screen : Screen S E
  setup_failed session_failed : E → Screen S E
  outlet : S → Screen S E

-- `setup.data?.required === b`
abbrev pub requires : Bool → Option Bool → Bool
requires b none = false
requires true (some r) = r
requires false (some r) = not r

-- `session.data` as it is shown: `undefined` and `null` are no session.
abbrev pub session_screen : {S E : Type 0} → Option (Option S) → Screen S E
session_screen (some (some s)) = outlet s
session_screen _ = login_screen

abbrev pub has_session : {S : Type 0} → Option (Option S) → Bool
has_session (some (some s)) = true
has_session _ = false

-- the checks from the session's error on
abbrev pub after_setup : {S E : Type 0} → Option E → Option (Option S) → Screen S E
after_setup none value = session_screen value
after_setup (some e) value =
    if not (has_session value) then session_failed e else session_screen value

-- the checks from the setup's error on
abbrev pub after_loading : {S E : Type 0} → Option E → Bool → Screen S E → Screen S E
after_loading (some e) required rest = setup_failed e
after_loading none required rest = if required then setup_screen else rest

unfoldable pub authentication_boundary :
    {S E : Type 0} → QueryResult Bool E → QueryResult (Option S) E → Screen S E
authentication_boundary setup session =
    if is_loading setup || requires false setup.value && is_loading session
    then starting
    else after_loading setup.error (requires true setup.value)
        (after_setup session.error session.value)

-- `getSession` after the call of the API: a 401 is no error, it is that nobody is signed in.
unfoldable pub get_session : {S : Type 0} → Outcome S → Outcome (Option S)
get_session (returned s) = returned (some s)
get_session (thrown other) = thrown other
get_session (thrown (api e)) = if e.status == 401 then returned none else thrown (api e)

-- The two entries of the cache that `useAuthenticationMutation`'s `onSuccess` sets.
unfoldable pub authenticated :
    {S E : Type 0} (cs : CacheEntry Bool E) (c : CacheEntry (Option S) E) (session : S)
    → QueryResult Bool E × QueryResult (Option S) E
    → QueryResult Bool E × QueryResult (Option S) E
authenticated cs c session (s, q) = (cs.set_data false s, c.set_data (some session) q)

-- The application is shown with a session exactly if that session is the one in hand, the setup
-- status has no error and does not ask for a setup, and the setup status is not loading.
pub authentication_boundary-outlet_iff :
    {S E : Type 0} (setup : QueryResult Bool E) (session : QueryResult (Option S) E) (s : S)
    → (authentication_boundary setup session ≡ outlet s) ↔ (
        (session.value ≡ some (some s))
        × (setup.error ≡ none)
        × (setup.value ≢ some true)
        × (is_loading setup ≡ false))
unfolding authentication_boundary
authentication_boundary-outlet_iff setup session s = ground arith

-- While the application is shown, it stays shown with its session whatever the refetch of the
-- session does: under way, failed or both.
pub authentication_boundary-survives :
    {S E : Type 0} (setup : QueryResult Bool E) (session : QueryResult (Option S) E) (s : S)
    (error : Option E) (fetching : Bool)
    → authentication_boundary setup session ≡ outlet s
    → (authentication_boundary setup (record session { error = error; fetching = fetching })
        ≡ outlet s)
unfolding authentication_boundary
authentication_boundary-survives setup session s error fetching h = ground arith

-- Nobody is taken to be signed out but for a 401: the session is `null` exactly if the server
-- answered with that status, and every other failure stays a failure.
pub get_session-none_iff :
    {S : Type 0} (o : Outcome S)
    → ((get_session o ≡ returned none) ↔ ((e : ApiError) × (o ≡ thrown (api e)) × (e.status ≡ 401)))
unfolding get_session
get_session-none_iff (returned s) = ground arith
get_session-none_iff (thrown other) = ground arith
get_session-none_iff (thrown (api e)) = ground arith

-- After a sign-in or a setup the application is shown with the new session, whatever the two
-- queries were doing.
pub authenticated-outlet :
    {S E : Type 0} (cs : CacheEntry Bool E) (c : CacheEntry (Option S) E) (session : S)
    (s : QueryResult Bool E) (q : QueryResult (Option S) E)
    → let after = authenticated cs c session (s, q) in
      authentication_boundary after.0 after.1 ≡ outlet session
unfolding authenticated
authenticated-outlet cs c session s q =
    let setup_value = cs.set_value false s in
    (authentication_boundary-outlet_iff (cs.set_data false s) (c.set_data (some session) q)
        session).1
      (c.set_value (some session) q, cs.set_error false s, λ h. cc, ground arith)
