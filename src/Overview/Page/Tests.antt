-- ===== src/Overview/Page/Tests.antt =====
-- The overview page at concrete events.
use blockops.Prelude.{ℕ, ◌≡◌, refl, some, List, [], ◌∷◌}
use blockops.Query.{Mutation}
use blockops.Query.Simple.{simple}
use blockops.Auth.Permissions.{operator, has_permission}
use blockops.Overview.Page.{
  ServerAction, restart, stop, server, Page, initial_page, handle, PageEvent, requested, confirmed,
  server_accepted, run,
}
use blockops.Overview.Page.Invariant.{IsPermitted, run-IsPermitted}

abbrev backups : Mutation Unit ℕ
backups = simple Unit ℕ

abbrev servers : Mutation ServerAction ℕ
servers = simple ServerAction ℕ

abbrev events : List (PageEvent ℕ)
events =
    requested (server stop)
    ∷ confirmed
    ∷ requested (server restart)
    ∷ confirmed
    ∷ server_accepted
    ∷ []

-- An operator restarts the server and cannot stop it.
sent :
    (run backups servers operator events (initial_page backups servers operator)).sent_actions
    ≡ restart ∷ []
unfolding handle has_permission
sent = refl

run-IsPermitted_example :
    IsPermitted backups servers operator
      (run backups servers operator events (initial_page backups servers operator))
run-IsPermitted_example = run-IsPermitted backups servers operator events

abbrev restarting : Page backups servers operator
restarting = record (initial_page backups servers operator) {
  pending_action = some (server restart);
  captured_server = some (server restart);
  servers = servers.mutate restart servers.initial;
}
