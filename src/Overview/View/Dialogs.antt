-- ===== src/Overview/View/Dialogs.antt =====
-- The open confirmation of the rendered overview page.
use blockops.Prelude.{◌≡◌, refl, Bool, Option, none, some, List, [], ◌∷◌}
use blockops.Js.Text.{Text}
use blockops.Query.{Mutation}
use blockops.Api.Error.{Caught}
use blockops.Auth.Permissions.{Role}
use blockops.Ui.{Fraction, words, clicks, in_dialogs, notice, page_header}
use blockops.Ui.Dialogs.{covered, in_dialogs-words, in_dialogs-map, in_dialogs-confirm_dialog}
use blockops.Overview.Page.{ServerAction, OverviewAction, Page}
use blockops.Overview.Data.{
  Available, available, unavailable, ServerInfo, PlayerSummary, ServerMetrics, DiskMetrics,
  WarningLine, Overview,
}
use blockops.Overview.Components.{
  server_details, server_lifecycle, player_names, online_players, player_summary, metric_card,
  cpu_card, memory_card, disk_card, capacity_section, warning_line, warnings_list, warnings_section,
}
use blockops.Overview.View.{error_notice, confirm_props, overview_confirmation, loaded_view, busy}

in_dialogs-server_details : (s : Available ServerInfo) → in_dialogs (server_details s) ≡ []
unfolding in_dialogs server_details
in_dialogs-server_details (available info message) = refl
in_dialogs-server_details (unavailable message) = refl

in_dialogs-server_lifecycle :
    (s : Available ServerInfo) (can_control : Bool)
    → in_dialogs (server_lifecycle s can_control) ≡ []
unfolding server_lifecycle
in_dialogs-server_lifecycle s can_control = simp (covered, in_dialogs-server_details)

in_dialogs-player_names : (ns : List Text) → in_dialogs (player_names ns) ≡ []
unfolding player_names
in_dialogs-player_names [] = simp covered
in_dialogs-player_names (n ∷ ns) = in_dialogs-map words in_dialogs-words (n ∷ ns)

in_dialogs-online_players : (s : Available PlayerSummary) → in_dialogs (online_players s) ≡ []
in_dialogs-online_players (unavailable message) = simp covered
in_dialogs-online_players (available players message) = simp (covered, in_dialogs-player_names)

in_dialogs-player_summary : (s : Available PlayerSummary) → in_dialogs (player_summary s) ≡ []
unfolding player_summary
in_dialogs-player_summary s = simp (covered, in_dialogs-online_players)

in_dialogs-metric_card :
    (l v : Text) (f : Option Fraction) (m : Option Text) → in_dialogs (metric_card l v f m) ≡ []
unfolding in_dialogs metric_card
in_dialogs-metric_card l v none none = refl
in_dialogs-metric_card l v none (some m) = refl
in_dialogs-metric_card l v (some f) m = refl

in_dialogs-cpu_card : (m : Available ServerMetrics) → in_dialogs (cpu_card m) ≡ []
unfolding cpu_card
in_dialogs-cpu_card (available m message) = simp in_dialogs-metric_card
in_dialogs-cpu_card (unavailable message) = simp in_dialogs-metric_card

in_dialogs-memory_card : (m : Available ServerMetrics) → in_dialogs (memory_card m) ≡ []
unfolding memory_card
in_dialogs-memory_card (available m message) = simp in_dialogs-metric_card
in_dialogs-memory_card (unavailable message) = simp in_dialogs-metric_card

in_dialogs-disk_card : (m : Available DiskMetrics) → in_dialogs (disk_card m) ≡ []
unfolding disk_card
in_dialogs-disk_card (available m message) = simp in_dialogs-metric_card
in_dialogs-disk_card (unavailable message) = simp in_dialogs-metric_card

in_dialogs-capacity_section :
    (format : Text → Option Text) (d : Overview) → in_dialogs (capacity_section format d) ≡ []
unfolding capacity_section
in_dialogs-capacity_section format d =
    simp (covered, in_dialogs-cpu_card, in_dialogs-memory_card, in_dialogs-disk_card)

in_dialogs-warning_line : (l : WarningLine) → in_dialogs (warning_line l) ≡ []
in_dialogs-warning_line l = simp covered

in_dialogs-warnings_list : (ls : List WarningLine) → in_dialogs (warnings_list ls) ≡ []
unfolding warnings_list
in_dialogs-warnings_list [] = simp covered
in_dialogs-warnings_list (l ∷ ls) = in_dialogs-map _ in_dialogs-warning_line (l ∷ ls)

in_dialogs-warnings_section : (ls : List WarningLine) → in_dialogs (warnings_section ls) ≡ []
unfolding warnings_section
in_dialogs-warnings_section ls = simp (covered, in_dialogs-warnings_list)

in_dialogs-error_notice : (o : Option Caught) → in_dialogs (error_notice o) ≡ []
unfolding in_dialogs notice
in_dialogs-error_notice none = refl
in_dialogs-error_notice (some e) = refl

in_dialogs-overview_confirmation :
    (a : Option OverviewAction) (is_busy : Bool)
    → in_dialogs (overview_confirmation a is_busy) ≡ clicks (overview_confirmation a is_busy)
unfolding overview_confirmation
in_dialogs-overview_confirmation a is_busy = in_dialogs-confirm_dialog (confirm_props a is_busy)

pub in_dialogs-loaded_view :
    (mb : Mutation Unit Caught) (ms : Mutation ServerAction Caught) (format : Text → Option Text)
    (role : Role) (p : Page mb ms role) (d : Overview)
    → in_dialogs (loaded_view mb ms format role p d)
      ≡ clicks (overview_confirmation p.pending_action (busy mb ms format role p))
unfolding loaded_view page_header
in_dialogs-loaded_view mb ms format role p d = simp (
  covered, in_dialogs-error_notice, in_dialogs-server_lifecycle, in_dialogs-player_summary,
  in_dialogs-capacity_section, in_dialogs-warnings_section, in_dialogs-overview_confirmation,
)
