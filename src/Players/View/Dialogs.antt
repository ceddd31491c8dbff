-- ===== src/Players/View/Dialogs.antt =====
-- The open dialog of the rendered players page.
use blockops.Prelude.{◌≡◌, refl, Bool, Option, none, some, List, [], ◌∷◌}
use blockops.Js.Text.{Text}
use blockops.Query.{Mutation}
use blockops.Api.Error.{Caught}
use blockops.Auth.Permissions.{Role}
use blockops.Ui.{clicks, in_dialogs, words, page_header, empty_state}
use blockops.Ui.Dialogs.{
  covered, in_dialogs-nothing, in_dialogs-words, in_dialogs-button, in_dialogs-field,
  in_dialogs-modal, in_dialogs-map,
}
use blockops.Ui.Laws.{clicks-nothing}
use blockops.Players.Schema.{PlayerActionRequest, Player}
use blockops.Players.Row.{RowAction}
use blockops.Players.Page.{PendingAction, DialogState, PlayersPage, busy}
use blockops.Players.View.{
  Click, action_button, player_row, allowlist_form, action_dialog, dialog_of, player_table,
  loaded_view,
}

in_dialogs-action_button : (name : Text) (a : RowAction) → in_dialogs (action_button name a) ≡ []
unfolding action_button
in_dialogs-action_button name a = in_dialogs-button _ _ _ _

in_dialogs-player_row : (b : Bool) (player : Player) → in_dialogs (player_row b player) ≡ []
unfolding player_row
in_dialogs-player_row b player = simp (
  covered,
  in_dialogs-map words in_dialogs-words,
  in_dialogs-map (action_button player.name) (in_dialogs-action_button player.name),
)

in_dialogs-player_table :
    (b : Bool) (search : Text) (players : List Player)
    → in_dialogs (player_table b search players) ≡ []
unfolding player_table empty_state
in_dialogs-player_table b search [] = simp covered
in_dialogs-player_table b search (player ∷ players) =
    in_dialogs-map _ (in_dialogs-player_row b) (player ∷ players)

in_dialogs-allowlist_form :
    (draft : Text) (error : Option Text) → in_dialogs (allowlist_form draft error) ≡ []
unfolding allowlist_form
in_dialogs-allowlist_form draft error = simp (covered, in_dialogs-field)

in_dialogs-dialog_of :
    (o : Option PendingAction) (state : DialogState) (is_busy : Bool) (error : Option Caught)
    → in_dialogs (dialog_of o state is_busy error) ≡ clicks (dialog_of o state is_busy error)
unfolding dialog_of action_dialog
in_dialogs-dialog_of none state is_busy error =
    rw (in_dialogs-nothing {E = Click}, clicks-nothing {E = Click}) refl
in_dialogs-dialog_of (some a) state is_busy error = in_dialogs-modal _ _ _ _ _

pub in_dialogs-loaded_view :
    (to_lower : Text → Text) (m : Mutation PlayerActionRequest Caught) (role : Role)
    (p : PlayersPage m.State) (players : List Player)
    → in_dialogs (loaded_view to_lower m role p players)
      ≡ clicks (dialog_of p.pending p.dialog (busy m p) (m.error p.action))
unfolding loaded_view page_header
in_dialogs-loaded_view to_lower m role p players =
    simp (covered, in_dialogs-allowlist_form, in_dialogs-player_table, in_dialogs-dialog_of)
