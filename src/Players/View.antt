-- ===== src/Players/View.antt =====
-- features/players: what players-page.tsx, player-row.tsx, allowlist-form.tsx and
-- player-action-dialog.tsx render.
--
-- `to_lower` stands for `toLowerCase`. The initials of a row, which are hidden from its reader, and the
-- caption and the heads of the table are left out.
pub mod Laws
pub mod Dialogs
mod Tests
use blockops.Prelude.{
  Bool, true, false, not, ◌&&◌, Option, none, some, List, [], ◌∷◌, ◌++◌, map, is_some,
  if◌then◌else◌,
}
use blockops.Js.Text.{Text, codes}
use blockops.Ui.{
  View, nothing, words, heading, pill, good, neutral, button, input, standard, secondary,
  destructive, views, beside, shown_if, danger, loading_state, error_state, empty_state, notice,
  page_header, field, modal,
}
use blockops.Query.{QueryResult, Mutation}
use blockops.Api.Error.{Caught, safe_error_message}
use blockops.Auth.Permissions.{Role, players_manage, has_permission}
use blockops.Players.Schema.{PlayerActionRequest, PendingPlayerAction, Player, player_action_copy}
use blockops.Players.Row.{RowAction, row_actions, access_badges, filter_players}
use blockops.Players.Page.{PendingAction, DialogState, PlayersPage, busy, shown_error}

-- What a click calls: `requestFromRow`, `submit` of the form, `closeDialog`, `submit` of the dialog, or
-- `refetch`.
pub data Click : Type 0 where
  request : PendingPlayerAction → Click
  add close submit refetch : Click

unfoldable pub action_button : Text → RowAction → View Click
action_button name a =
    button (if a.destructive then destructive else secondary) a.label true
      (request (record { action = a.action; name = name }))

abbrev uuid_text : Option Text → Text
uuid_text none = codes "UUID unavailable"
uuid_text (some []) = codes "UUID unavailable"
uuid_text (some (c ∷ s)) = c ∷ s

-- player-row.tsx
unfoldable pub player_row : Bool → Player → View Click
player_row can_manage player = views (
    heading player.name
    ∷ pill (if player.online then good else neutral)
        (if player.online then codes "Online" else codes "Offline")
    ∷ words (uuid_text player.uuid)
    ∷ views (map words (access_badges player))
    ∷ views (map (action_button player.name) (row_actions can_manage player))
    ∷ [])

-- allowlist-form.tsx
unfoldable pub allowlist_form : Text → Option Text → View Click
allowlist_form draft error =
    beside (field (codes "Add to allowlist") error (is_some error) (input draft))
      (button standard (codes "Add") true add)

abbrev pub error_notice : Option Caught → View Click
error_notice none = nothing
error_notice (some e) = notice danger (words (safe_error_message e))

-- player-action-dialog.tsx
unfoldable pub action_dialog : PendingAction → DialogState → Bool → Option Caught → View Click
action_dialog pending state is_busy error =
    let copy = player_action_copy pending.action in
    modal true (copy.title pending.name) (some copy.description) close (
      views (
        shown_if copy.needs_reason (
          field (codes "Reason") state.reason_error (is_some state.reason_error)
            (input state.reason))
        ∷ error_notice error
        ∷ button secondary (codes "Cancel") (not is_busy) close
        ∷ button (if copy.dangerous then destructive else standard)
            (if is_busy then codes "Working…" else copy.confirm_label) (not is_busy) submit
        ∷ []))

unfoldable pub dialog_of : Option PendingAction → DialogState → Bool → Option Caught → View Click
dialog_of none state is_busy error = nothing
dialog_of (some pending) state is_busy error = action_dialog pending state is_busy error

abbrev no_match : Text → Text
no_match [] = codes "Player records appear after the server has seen a player."
no_match (c ∷ s) = codes "No known player matches this search."

-- The table, or the state that takes its place.
unfoldable pub player_table : Bool → Text → List Player → View Click
player_table can_manage search [] = empty_state (codes "No players found") (no_match search) nothing
player_table can_manage search (player ∷ players) =
    views (map (player_row can_manage) (player ∷ players))

module _ (to_lower : Text → Text) (m : Mutation PlayerActionRequest Caught) (role : Role)
    (p : PlayersPage m.State) where
  abbrev pub can_manage : Bool
  can_manage = has_permission role players_manage

  unfoldable pub loaded_view : List Player → View Click
  loaded_view players = views (
      page_header (some (codes "Vanilla access control")) (codes "Players")
        (codes
          "Online presence, identifiers, allowlist, bans, and operator status from the configured Java server.")
        nothing
      ∷ words (codes "Search players")
      ∷ input p.search
      ∷ (if can_manage
          then allowlist_form p.allowlist_draft p.form_error
          else words (codes "Viewer access is read-only."))
      ∷ player_table can_manage p.search (filter_players to_lower p.search players)
      ∷ dialog_of p.pending p.dialog (busy m p) (m.error p.action)
      ∷ [])

  unfoldable pub players_page : QueryResult (List Player) Caught → View Click
  players_page q = elim q.error [
    | some e ↦ error_state (safe_error_message e) (some refetch)
    | none ↦ elim q.value [
      | none ↦ loading_state (codes "Reading players and vanilla access lists")
      | some players ↦ loaded_view players
    ]
  ]
