-- ===== src/Settings/View/Dialogs.antt =====
-- The open dialog of the rendered settings page.
use blockops.Prelude.{◌≡◌, Option, List, [], ◌∷◌}
use blockops.Js.Text.{Text}
use blockops.Query.{Mutation}
use blockops.Api.Error.{Caught}
use blockops.Auth.Session.Schema.{User}
use blockops.Ui.{clicks, in_dialogs, notice, page_header, empty_state}
use blockops.Ui.Dialogs.{covered, in_dialogs-field, in_dialogs-map, in_dialogs-confirm_dialog}
use blockops.Settings.Users.{UserSettings, UserChange}
use blockops.Settings.NewUser.{CreateUserRequest, NewUser}
use blockops.Settings.Integration.{RconCredentials, Integration}
use blockops.Settings.View.{
  RconStatus, Deployment, SettingsData, deployment_settings, integration_form, integration_settings,
  user_row, user_rows, create_form, intent_dialog, user_settings, loaded_view,
}

in_dialogs-deployment_settings : (d : Deployment) → in_dialogs (deployment_settings d) ≡ []
unfolding deployment_settings
in_dialogs-deployment_settings d = simp covered

in_dialogs-integration_settings :
    (m : Mutation RconCredentials Caught) (f : Integration m.State) (s : RconStatus)
    → in_dialogs (integration_settings m f s) ≡ []
unfolding integration_settings integration_form notice
in_dialogs-integration_settings m f s = simp (covered, in_dialogs-field)

module _ (format : Text → Option Text) (own : Text) where
  in_dialogs-user_row : (u : User) → in_dialogs (user_row format own u) ≡ []
  unfolding user_row
  in_dialogs-user_row u = simp covered

  in_dialogs-user_rows : (us : List User) → in_dialogs (user_rows format own us) ≡ []
  unfolding user_rows empty_state
  in_dialogs-user_rows [] = simp covered
  in_dialogs-user_rows (u ∷ us) = in_dialogs-map _ in_dialogs-user_row (u ∷ us)

  module _ (mu : Mutation UserChange Caught) (mc : Mutation CreateUserRequest Caught) where
    in_dialogs-create_form :
        (f : NewUser mc.State) → in_dialogs (create_form format own mu mc f) ≡ []
    unfolding create_form
    in_dialogs-create_form f = simp (covered, in_dialogs-field)

    in_dialogs-intent_dialog :
        (p : UserSettings mu.State)
        → in_dialogs (intent_dialog format own mu mc p) ≡ clicks (intent_dialog format own mu mc p)
    unfolding intent_dialog
    in_dialogs-intent_dialog p = in_dialogs-confirm_dialog _

    in_dialogs-user_settings :
        (f : NewUser mc.State) (p : UserSettings mu.State) (us : List User)
        → in_dialogs (user_settings format own mu mc f p us)
          ≡ clicks (intent_dialog format own mu mc p)
    unfolding user_settings notice
    in_dialogs-user_settings f p us =
        simp (covered, in_dialogs-create_form, in_dialogs-user_rows, in_dialogs-intent_dialog)

    pub in_dialogs-loaded_view :
        (mr : Mutation RconCredentials Caught) (i : Integration mr.State) (f : NewUser mc.State)
        (p : UserSettings mu.State) (s : SettingsData) (us : List User)
        → in_dialogs (loaded_view format own mu mc mr i f p s us)
          ≡ clicks (intent_dialog format own mu mc p)
    unfolding loaded_view page_header
    in_dialogs-loaded_view mr i f p s us = simp (
      covered, in_dialogs-integration_settings, in_dialogs-user_settings,
      in_dialogs-deployment_settings,
    )
