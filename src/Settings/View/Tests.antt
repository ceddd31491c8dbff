-- ===== src/Settings/View/Tests.antt =====
-- The rendered settings at a concrete state: two users, of whom one looks at the page.
use blockops.Prelude.{◌≡◌, refl, ◌&&◌, ◌++◌, true, false, not, Option, none, some, List, [], ◌∷◌}
use blockops.Js.Text.{Text, codes}
use blockops.Query.{QueryResult, is_pending, Mutation}
use blockops.Query.Simple.{simple}
use blockops.Api.Error.{Caught}
use blockops.Auth.Permissions.{administrator, operator}
use blockops.Auth.Session.Schema.{User}
use blockops.Ui.{View, clicks, in_dialogs, click_if}
use blockops.Settings.Users.{UserSettings, UserChange, initial_settings, disable, open_intent}
use blockops.Settings.NewUser.{CreateUserRequest, initial_form}
use blockops.Settings.Integration.{RconCredentials, initial_integration}
use blockops.Settings.View.{Click, update, create, SettingsData, settings_page}
use blockops.Settings.View.Laws.{row_clicks, dialog_clicks, settings_page-clicks}

abbrev ada : User
ada = record {
  id = codes "1";
  username = codes "ada";
  role = administrator;
  disabled = false;
  created_at = [];
}

abbrev bob : User
bob = record ada { id = codes "2"; username = codes "bob"; role = operator }

abbrev changes : Mutation UserChange Caught
changes = simple UserChange Caught

abbrev creations : Mutation CreateUserRequest Caught
creations = simple CreateUserRequest Caught

abbrev updates : Mutation RconCredentials Caught
updates = simple RconCredentials Caught

abbrev data_ : SettingsData
data_ = record {
  rcon = record {
    address = codes "mc:25575";
    configured = true;
    source = codes "environment";
    credential_updates_enabled = false;
  };
  deployment = record {
    minecraft_container = codes "minecraft";
    world_name = codes "world";
    cookie_secure = true;
    trusted_proxy_count = 1;
    max_upload_bytes = 1048576;
  };
}

abbrev settings : QueryResult SettingsData Caught
settings = record { value = some data_; error = none; fetching = false }

abbrev users : QueryResult (List User) Caught
users = record { value = some (ada ∷ bob ∷ []); error = none; fetching = false }

abbrev undated : Text → Option Text
undated t = none

abbrev asking : UserSettings changes.State
asking = open_intent changes disable bob (initial_settings changes)

abbrev shown : View Click
shown =
    settings_page undated (codes "1") changes creations updates (initial_integration updates)
      (initial_form creations) asking settings users

settings_page-clicks_example :
    (clicks shown
      ≡ click_if (false && not (is_pending (updates.status updates.initial))) update
        ++ (click_if (not (is_pending (creations.status creations.initial))) create
            ++ (row_clicks (codes "1") (ada ∷ bob ∷ [])
                ++ dialog_clicks changes asking asking.intent)))
    × (in_dialogs shown ≡ dialog_clicks changes asking asking.intent)
settings_page-clicks_example =
    settings_page-clicks undated (codes "1") changes creations updates (initial_integration updates)
      (initial_form creations) asking settings users data_ (ada ∷ bob ∷ []) refl refl refl refl refl
