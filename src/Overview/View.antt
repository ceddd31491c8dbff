-- ===== src/Overview/View.antt =====
-- features/overview: what overview-page.tsx and overview-confirmation.tsx render.
--
-- `format` stands for the dates of `Intl`.
pub mod Laws
pub mod Dialogs
mod Tests
use blockops.Prelude.{
  Bool, true, false, ◌&&◌, ◌||◌, Option, none, some, List, [], ◌∷◌, is_some, if◌then◌else◌,
}
use blockops.Js.Text.{Text, codes}
use blockops.Ui.{
  View, nothing, words, button, standard, secondary, views, beside, shown_if, danger, loading_state,
  error_state, notice, page_header, ConfirmProps, confirm_dialog,
}
use blockops.Query.{is_pending, QueryResult, Mutation}
use blockops.Api.Error.{Caught, safe_error_message}
use blockops.Auth.Permissions.{Role, server_restart, has_permission}
use blockops.Overview.Page.{
  ServerAction, stop, restart, OverviewAction, backup, server, confirmation_for, is_administrator,
  can_backup, Page, mutation_error, confirmed, closed,
}
use blockops.Overview.Data.{Overview}
use blockops.Overview.Components.{
  Click, on_page, refetch, ask, server_lifecycle, player_summary, capacity_section,
  warnings_section,
}

abbrev is_stop : Option OverviewAction → Bool
is_stop (some (server stop)) = true
is_stop _ = false

-- The properties that `OverviewConfirmation` passes on.
unfoldable pub confirm_props : Option OverviewAction → Bool → ConfirmProps Click
unfolding confirmation_for
confirm_props action busy =
    let copy = confirmation_for action in
    record {
      is_open = is_some action;
      title = copy.title;
      description = copy.description;
      confirm_label = copy.label;
      dangerous = is_stop action;
      busy = busy;
      error = nothing;
      on_confirm = on_page confirmed;
      on_close = on_page closed;
    }

unfoldable pub overview_confirmation : Option OverviewAction → Bool → View Click
unfolding confirm_props
overview_confirmation action busy = confirm_dialog (confirm_props action busy)

abbrev pub error_notice : Option Caught → View Click
error_notice none = nothing
error_notice (some e) = notice danger (words (safe_error_message e))

-- The buttons of the header.
unfoldable pub header_actions : Role → View Click
header_actions role =
    let can_restart = has_permission role server_restart in
    shown_if (can_backup role || can_restart) (
      beside (shown_if (can_backup role) (button secondary (codes "Back up now") true (ask backup)))
        (shown_if can_restart
          (button standard (codes "Graceful restart") true (ask (server restart)))))

module _ (mb : Mutation Unit Caught) (ms : Mutation ServerAction Caught)
    (format : Text → Option Text) (role : Role) (p : Page mb ms role) where
  abbrev pub busy : Bool
  busy = is_pending (mb.status p.backups) || is_pending (ms.status p.servers)

  unfoldable pub loaded_view : Overview → View Click
  unfolding header_actions overview_confirmation
  loaded_view data_ = views (
      page_header (some (codes "Server pulse")) (codes "Overview")
        (codes
          "One honest view of runtime health, players, capacity, and recent operational signals.")
        (header_actions role)
      ∷ error_notice (mutation_error mb ms role p)
      ∷ server_lifecycle data_.server (is_administrator role)
      ∷ player_summary data_.players
      ∷ capacity_section format data_
      ∷ warnings_section data_.recent_warnings
      ∷ overview_confirmation p.pending_action busy
      ∷ [])

  -- An error comes first, also where data of an earlier answer are there.
  unfoldable pub overview_page : QueryResult Overview Caught → View Click
  unfolding loaded_view
  overview_page q = elim q.error [
    | some e ↦ error_state (safe_error_message e) (some refetch)
    | none ↦ elim q.value [
      | none ↦ loading_state (codes "Reading live server state")
      | some data_ ↦ loaded_view data_
    ]
  ]
