-- ===== src/Overview/View/Laws.antt =====
-- Which actions the rendered overview page offers.
use blockops.Prelude.{
  ◌≡◌, refl, ◌∙◌, Bool, true, false, not, ◌&&◌, Option, none, some, List, [], ◌∷◌, ◌++◌, map,
  append-nil, append_assoc, Bool-cases, is_some, if◌then◌else◌, arith,
}
use blockops.Js.Text.{Text}
use blockops.Query.{QueryResult, Mutation}
use blockops.Api.Error.{Caught}
use blockops.Auth.Permissions.{Role, backups_create, server_restart, has_permission}
use blockops.Ui.{Fraction, words, views, clicks, in_dialogs, click_if, notice, page_header}
use blockops.Ui.Laws.{elements, confirm_dialog-clicks}
use blockops.Overview.Page.{
  ServerAction, start, stop, restart, OverviewAction, backup, server, is_administrator, is_online,
  is_offline, offers, Page, confirmed, closed,
}
use blockops.Overview.Data.{
  Available, available, unavailable, ServerInfo, PlayerSummary, ServerMetrics, DiskMetrics,
  WarningLine, Overview, state_of,
}
use blockops.Overview.Components.{
  Click, on_page, ask, server_details, server_lifecycle, player_names, online_players,
  player_summary, metric_card, cpu_card, memory_card, disk_card, capacity_section, warning_line,
  warnings_list, warnings_section,
}
use blockops.Overview.View.Dialogs.{in_dialogs-loaded_view}
use blockops.Overview.View.{
  error_notice, confirm_props, overview_confirmation, header_actions, loaded_view, overview_page,
  busy,
}

clicks-all_words : (ts : List Text) → clicks {E = Click} (views (map words ts)) ≡ []
clicks-all_words [] = simp elements
clicks-all_words (t ∷ ts) = simp (elements, clicks-all_words ts)

clicks-server_details : (s : Available ServerInfo) → clicks (server_details s) ≡ []
unfolding clicks server_details
clicks-server_details (available info message) = refl
clicks-server_details (unavailable message) = refl

clicks-player_names : (ns : List Text) → clicks (player_names ns) ≡ []
unfolding player_names
clicks-player_names [] = simp elements
clicks-player_names (n ∷ ns) = clicks-all_words (n ∷ ns)

clicks-online_players : (s : Available PlayerSummary) → clicks (online_players s) ≡ []
clicks-online_players (unavailable message) = simp elements
clicks-online_players (available players message) = simp (elements, clicks-player_names)

clicks-player_summary : (s : Available PlayerSummary) → clicks (player_summary s) ≡ []
unfolding player_summary
clicks-player_summary s = simp (elements, clicks-online_players)

clicks-metric_card :
    (l v : Text) (f : Option Fraction) (m : Option Text) → clicks (metric_card l v f m) ≡ []
unfolding clicks metric_card
clicks-metric_card l v none none = refl
clicks-metric_card l v none (some m) = refl
clicks-metric_card l v (some f) m = refl

clicks-cpu_card : (m : Available ServerMetrics) → clicks (cpu_card m) ≡ []
unfolding cpu_card
clicks-cpu_card (available m message) = simp clicks-metric_card
clicks-cpu_card (unavailable message) = simp clicks-metric_card

clicks-memory_card : (m : Available ServerMetrics) → clicks (memory_card m) ≡ []
unfolding memory_card
clicks-memory_card (available m message) = simp clicks-metric_card
clicks-memory_card (unavailable message) = simp clicks-metric_card

clicks-disk_card : (m : Available DiskMetrics) → clicks (disk_card m) ≡ []
unfolding disk_card
clicks-disk_card (available m message) = simp clicks-metric_card
clicks-disk_card (unavailable message) = simp clicks-metric_card

clicks-capacity_section :
    (format : Text → Option Text) (d : Overview) → clicks (capacity_section format d) ≡ []
unfolding clicks capacity_section
clicks-capacity_section format d =
    rw (clicks-cpu_card d.metrics, clicks-memory_card d.metrics, clicks-disk_card d.disk) refl

clicks-warnings : (ls : List WarningLine) → clicks (views (map warning_line ls)) ≡ []
clicks-warnings [] = simp elements
clicks-warnings (l ∷ ls) = simp (elements, clicks-warnings ls)

clicks-warnings_list : (ls : List WarningLine) → clicks (warnings_list ls) ≡ []
unfolding warnings_list
clicks-warnings_list [] = simp elements
clicks-warnings_list (l ∷ ls) = clicks-warnings (l ∷ ls)

clicks-warnings_section : (ls : List WarningLine) → clicks (warnings_section ls) ≡ []
unfolding warnings_section
clicks-warnings_section ls = simp (elements, clicks-warnings_list)

clicks-error_notice : (o : Option Caught) → clicks (error_notice o) ≡ []
unfolding clicks notice
clicks-error_notice none = refl
clicks-error_notice (some e) = refl

clicks-header_actions :
    (role : Role)
    → clicks (header_actions role)
      ≡ click_if (has_permission role backups_create) (ask backup)
        ++ click_if (has_permission role server_restart) (ask (server restart))
unfolding clicks header_actions
clicks-header_actions role = ground (
  arith,
  Bool-cases (has_permission role backups_create),
  Bool-cases (has_permission role server_restart),
)

clicks-server_lifecycle :
    (s : Available ServerInfo) (can_control : Bool)
    → clicks (server_lifecycle s can_control)
      ≡ click_if (can_control && not (is_online (state_of s))) (ask (server start))
        ++ click_if (can_control && not (is_offline (state_of s))) (ask (server stop))
unfolding clicks server_lifecycle
clicks-server_lifecycle s false = simp (clicks-server_details, append-nil)
clicks-server_lifecycle s true = ground (
  arith,
  clicks-server_details s,
  Bool-cases (is_online (state_of s)),
  Bool-cases (is_offline (state_of s)),
)

module _ (mb : Mutation Unit Caught) (ms : Mutation ServerAction Caught)
    (format : Text → Option Text) (role : Role) (p : Page mb ms role) where
  -- All buttons are in the header, in the lifecycle card and in the confirmation.
  clicks-loaded_view :
      (d : Overview)
      → clicks (loaded_view mb ms format role p d)
        ≡ clicks (header_actions role)
          ++ (clicks (server_lifecycle d.server (is_administrator role))
              ++ clicks (overview_confirmation p.pending_action (busy mb ms format role p)))
  unfolding clicks loaded_view page_header
  clicks-loaded_view d = simp (
    clicks-error_notice, clicks-player_summary, clicks-capacity_section, clicks-warnings_section,
    append-nil,
  )

  -- The controls of the confirmation: a dialog can be dismissed and has a button that closes
  -- it; its own two buttons are enabled while it is not busy.
  abbrev pub dialog_clicks : List Click
  dialog_clicks =
      if is_some p.pending_action
      then on_page closed
        ∷ on_page closed
        ∷ (if busy mb ms format role p then [] else on_page closed ∷ on_page confirmed ∷ [])
      else []

  no_error : clicks (confirm_props p.pending_action (busy mb ms format role p)).error ≡ []
  unfolding confirm_props clicks
  no_error = refl

  clicks-overview_confirmation :
      clicks (overview_confirmation p.pending_action (busy mb ms format role p)) ≡ dialog_clicks
  unfolding overview_confirmation confirm_props
  clicks-overview_confirmation =
      confirm_dialog-clicks (confirm_props p.pending_action (busy mb ms format role p)) no_error

  overview_page-loaded :
      (q : QueryResult Overview Caught) (d : Overview)
      → q.error ≡ none
      → q.value ≡ some d
      → overview_page mb ms format role p q ≡ loaded_view mb ms format role p d
  unfolding overview_page
  overview_page-loaded q d e v = rw (e, v) refl

-- While the overview is loaded without an error, the page has enabled controls for exactly this: to ask
-- for each action that the role and the state of the server allow, and, while an action waits for its
-- confirmation, to close it, and to confirm it unless a mutation is under way. The open dialog has
-- those of the confirmation, and no others.
pub overview_page-clicks :
    (mb : Mutation Unit Caught) (ms : Mutation ServerAction Caught) (format : Text → Option Text)
    (role : Role) (p : Page mb ms role) (q : QueryResult Overview Caught) (d : Overview)
    → q.error ≡ none
    → q.value ≡ some d
    → let offered : OverviewAction → List Click =
        λ a. click_if (offers role (state_of d.server) a) (ask a) in
      (clicks (overview_page mb ms format role p q)
        ≡ offered backup
          ++ (offered (server restart)
              ++ (offered (server start)
                  ++ (offered (server stop) ++ dialog_clicks mb ms format role p))))
      × (in_dialogs (overview_page mb ms format role p q) ≡ dialog_clicks mb ms format role p)
unfolding offers
overview_page-clicks mb ms format role p q d e v =
    rw (overview_page-loaded mb ms format role p q d e v) (
      rw
          (
            clicks-loaded_view mb ms format role p d,
            clicks-header_actions role,
            clicks-server_lifecycle d.server (is_administrator role),
            clicks-overview_confirmation mb ms format role p,
          )
          (simp append_assoc),
      in_dialogs-loaded_view mb ms format role p d
          ∙ clicks-overview_confirmation mb ms format role p,
    )
