-- ===== src/Overview/View/Tests.antt =====
-- The overview page of an administrator, rendered.
use blockops.Prelude.{◌≡◌, refl, false, Option, none, some, List, [], ◌∷◌, ◌++◌}
use blockops.Js.Text.{Text, codes}
use blockops.Query.{QueryResult, Mutation}
use blockops.Query.Simple.{simple}
use blockops.Api.Error.{Caught, other, safe_error_message}
use blockops.Auth.Permissions.{administrator}
use blockops.Ui.{clicks, in_dialogs, click_if, alerts, texts, error_state}
use blockops.Overview.Page.{
  ServerAction, start, stop, restart, OverviewAction, backup, server, online, offers, Page,
  initial_page,
}
use blockops.Overview.Data.{Overview, available, unavailable, state_of}
use blockops.Overview.Components.{Click, ask}
use blockops.Overview.View.{overview_page}
use blockops.Overview.View.Laws.{dialog_clicks, overview_page-clicks}

abbrev backups : Mutation Unit Caught
backups = simple Unit Caught

abbrev servers : Mutation ServerAction Caught
servers = simple ServerAction Caught

abbrev overview : Overview
overview = record {
  server =
      available
        (record {
          state = online;
          image = none;
          started_at = none;
          uptime_seconds = some 3900;
          version = some (codes "1.21");
          software = some (codes "Paper");
        })
        none;
  metrics = unavailable (some (codes "No metrics."));
  disk = available (record { used_bytes = 1536; total_bytes = 0 }) none;
  players = available (record { online = 1; max = 20; names = codes "alex" ∷ [] }) none;
  recent_warnings = [];
  last_successful_backup = none;
}

abbrev answered : QueryResult Overview Caught
answered = record { value = some overview; error = none; fetching = false }

-- The administrator has asked to stop the server.
abbrev stopping_page : Page backups servers administrator
stopping_page = record (initial_page backups servers administrator) {
  pending_action = some (server stop);
}

abbrev no_format : Text → Option Text
no_format t = none

overview_page-clicks_example :
    let offered : OverviewAction → List Click =
      λ a. click_if (offers administrator (state_of overview.server) a) (ask a) in
    (clicks (overview_page backups servers no_format administrator stopping_page answered)
      ≡ offered backup
        ++ (offered (server restart)
            ++ (offered (server start)
                ++ (offered (server stop)
                    ++ dialog_clicks backups servers no_format administrator stopping_page))))
    × (in_dialogs (overview_page backups servers no_format administrator stopping_page answered)
        ≡ dialog_clicks backups servers no_format administrator stopping_page)
overview_page-clicks_example =
    overview_page-clicks backups servers no_format administrator stopping_page answered overview
      refl refl

-- A failed query is announced.
announced :
    alerts (
      overview_page backups servers no_format administrator stopping_page
        (record { value = none; error = some other; fetching = false }))
    ≡ codes "Couldn’t load this view" ∷ codes "Something went wrong." ∷ []
unfolding overview_page alerts texts error_state safe_error_message
announced = refl
