-- ===== src/Settings/View.antt =====
-- features/settings: what settings-page.tsx, user-settings.tsx, integration-settings.tsx and
-- deployment-settings.tsx render.
--
-- `format` stands for the dates of `Intl`. The two letters of a user's picture are left out.
pub mod Laws
pub mod Dialogs
mod Tests
use blockops.Prelude.{
  ℕ, Bool, true, false, not, ◌&&◌, ◌||◌, Option, none, some, List, [], ◌∷◌, ◌++◌, map, is_some,
  if◌then◌else◌,
}
use blockops.Js.Text.{Text, codes, same_text}
use blockops.Js.Number.{to_text}
use blockops.Formatters.{format_bytes, format_date}
use blockops.Query.{QueryResult, is_loading, is_pending, is_error, is_success, Mutation}
use blockops.Api.Error.{Caught, safe_error_message}
use blockops.Auth.Permissions.{Role, administrator, operator, viewer}
use blockops.Auth.Session.Schema.{User}
use blockops.Ui.{
  View, Tone, good, warn, bad, neutral, info, nothing, words, heading, button, input, standard,
  secondary, destructive, views, beside, shown_if, text_if, danger, success, warning, notice, field,
  status_pill, loading_state, error_state, empty_state, page_header, confirm_dialog,
}
use blockops.Settings.Users.{
  UserSettings, IntentType, disable, revoke, UserIntent, UserChange, offers, active_change, busy,
  shows_error,
}
use blockops.Settings.NewUser.{CreateUserRequest, NewUser}
use blockops.Settings.Integration.{RconCredentials, Integration, shown_address}

pub data Click : Type 0 where
  ask : IntentType → User → Click
  close confirm create update refetch_settings refetch_users : Click

pub record RconStatus : Type 0 where
  pub address : Text
  pub configured : Bool
  pub source : Text
  pub credential_updates_enabled : Bool

pub record Deployment : Type 0 where
  pub minecraft_container : Text
  pub world_name : Text
  pub cookie_secure : Bool
  pub trusted_proxy_count : ℕ
  pub max_upload_bytes : ℕ

pub record SettingsData : Type 0 where
  pub rcon : RconStatus
  pub deployment : Deployment

abbrev error_text : Option Caught → Text
error_text none = codes "Something went wrong."
error_text (some e) = safe_error_message e

-- A term and what it stands for.
abbrev entry : Text → Text → View Click
entry term value = beside (words term) (words value)

-- `status.address || "Not configured"`
abbrev address_text : Text → Text
address_text [] = codes "Not configured"
address_text (c ∷ s) = c ∷ s

abbrev or_hint : Text → Option Text → Option Text
or_hint hint none = some hint
or_hint hint (some t) = some t

-- the truth of an optional string
abbrev shows : Option Text → Bool
shows none = false
shows (some []) = false
shows (some (c ∷ s)) = true

-- deployment-settings.tsx
unfoldable pub deployment_settings : Deployment → View Click
deployment_settings d = views (
    words (codes "Restart required")
    ∷ heading (codes "Deployment boundaries")
    ∷ words (
        codes "These values come from the host environment and cannot be widened from the browser.")
    ∷ entry (codes "Minecraft container") d.minecraft_container
    ∷ entry (codes "World name") d.world_name
    ∷ entry (codes "Upload limit") (format_bytes (some d.max_upload_bytes))
    ∷ entry (codes "Secure cookies")
        (if d.cookie_secure then codes "Required" else codes "Disabled (development only)")
    ∷ entry (codes "Trusted proxy ranges") (to_text d.trusted_proxy_count)
    ∷ entry (codes "Host shell") (codes "Not available")
    ∷ [])

-- integration-settings.tsx
module _ (m : Mutation RconCredentials Caught) where
  unfoldable pub integration_form : Integration m.State → RconStatus → View Click
  integration_form f status =
      let pending_update = is_pending (m.status f.update) in
      views (
        shown_if (is_error (m.status f.update))
          (notice danger (words (error_text (m.error f.update))))
        ∷ shown_if (is_success (m.status f.update))
            (notice success (words (codes "Encrypted RCON credentials updated.")))
        ∷ field (codes "RCON address")
            (or_hint (codes "Private Docker DNS name and port, for example minecraft:25575.")
              f.address_error)
            (shows f.address_error) (input (shown_address f.edited_address status.address))
        ∷ field (codes "New RCON password")
            (or_hint (codes "Stored with AES-256-GCM using the external BlockOps encryption key.")
              f.password_error)
            (shows f.password_error) (input f.password)
        ∷ button standard (if pending_update then codes "Saving…" else codes "Update credentials")
            (not pending_update) update
        ∷ [])

  unfoldable pub integration_settings : Integration m.State → RconStatus → View Click
  integration_settings f status = views (
      words (codes "Private integration")
      ∷ heading (codes "RCON credentials")
      ∷ words (codes "Used only by the backend for Minecraft commands and save coordination.")
      ∷ status_pill (if status.configured then good else warn)
          (if status.configured then codes "configured" else codes "missing")
      ∷ entry (codes "Address") (address_text status.address)
      ∷ entry (codes "Credential source") status.source
      ∷ entry (codes "Browser exposure") (codes "Never")
      ∷ (if status.credential_updates_enabled
          then integration_form f status
          else notice warning (
              words (
                codes
                  "Credential updates are locked. Set BLOCKOPS_ENCRYPTION_KEY and restart; environment-provided RCON credentials continue to work.")))
      ∷ [])

-- user-settings.tsx
abbrev role_text : Role → Text
role_text administrator = codes "administrator"
role_text operator = codes "operator"
role_text viewer = codes "viewer"

abbrev role_tone : Role → Tone
role_tone administrator = info
role_tone _ = neutral

abbrev is_disable : Option UserIntent → Bool
is_disable none = false
is_disable (some i) = elim i.type_ [ disable ↦ true | revoke ↦ false ]

abbrev intent_name : Option UserIntent → Text
intent_name none = codes "this user"
intent_name (some i) = i.user.username

module _ (format : Text → Option Text) (own : Text) where
  unfoldable pub user_row : User → View Click
  user_row user = views (
      words user.username
      ∷ shown_if (same_text user.id own) (words (codes "(you)"))
      ∷ words (codes "Created " ++ format_date format (some user.created_at))
      ∷ status_pill (if user.disabled then bad else role_tone user.role)
          (if user.disabled then codes "disabled" else role_text user.role)
      ∷ shown_if (offers own revoke user)
          (button secondary (codes "Revoke sessions") true (ask revoke user))
      ∷ shown_if (offers own disable user)
          (button destructive (codes "Disable") true (ask disable user))
      ∷ [])

  unfoldable pub user_rows : List User → View Click
  user_rows [] =
      empty_state (codes "No users") (codes "The initial administrator should always be present.")
        nothing
  user_rows (user ∷ users) = views (map user_row (user ∷ users))

  module _ (mu : Mutation UserChange Caught) (mc : Mutation CreateUserRequest Caught) where
    unfoldable pub create_form : NewUser mc.State → View Click
    create_form f =
        let creating = is_pending (mc.status f.create) in
        views (
          field (codes "Username") f.field_errors.username (shows f.field_errors.username)
            (input f.username)
          ∷ field (codes "Temporary password") f.field_errors.password
              (shows f.field_errors.password) (input f.password)
          ∷ field (codes "Role") f.field_errors.role (shows f.field_errors.role)
              (input (role_text f.role))
          ∷ button standard (if creating then codes "Creating…" else codes "Create user")
              (not creating) create
          ∷ [])

    unfoldable pub intent_dialog : UserSettings mu.State → View Click
    intent_dialog p = confirm_dialog (record {
      is_open = is_some p.intent;
      title =
          if is_disable p.intent
          then codes "Disable " ++ (intent_name p.intent ++ codes "?")
          else codes "Revoke sessions for " ++ (intent_name p.intent ++ codes "?");
      description =
          if is_disable p.intent
          then codes
              "The account will be disabled and all active sessions revoked. This MVP does not delete audit history."
          else codes
              "Every active session for this account will stop working immediately, including the current session if it belongs to you.";
      confirm_label = if is_disable p.intent then codes "Disable user" else codes "Revoke sessions";
      dangerous = is_disable p.intent;
      busy = busy mu p;
      error =
          shown_if (shows_error mu p)
            (notice danger (words (error_text (mu.error (active_change mu p)))));
      on_confirm = confirm;
      on_close = close;
    })

    unfoldable pub user_settings : NewUser mc.State → UserSettings mu.State → List User → View Click
    user_settings f p users = views (
        words (codes "Dashboard access")
        ∷ heading (codes "Users and roles")
        ∷ words (codes "Roles govern BlockOps only. Vanilla operator status is managed on Players.")
        ∷ create_form f
        ∷ shown_if (is_error (mc.status f.create))
            (notice danger (words (error_text (mc.error f.create))))
        ∷ user_rows users
        ∷ intent_dialog p
        ∷ [])

-- settings-page.tsx
module _ (format : Text → Option Text) (own : Text) (mu : Mutation UserChange Caught)
    (mc : Mutation CreateUserRequest Caught) (mr : Mutation RconCredentials Caught)
    (integration : Integration mr.State) (f : NewUser mc.State) (p : UserSettings mu.State) where
  unfoldable pub loaded_view : SettingsData → List User → View Click
  loaded_view settings users = views (
      page_header (some (codes "Administrator controls")) (codes "Settings")
        (codes
          "Dashboard users, revocable sessions, encrypted RCON credentials, and immutable deployment boundaries.")
        nothing
      ∷ integration_settings mr integration settings.rcon
      ∷ user_settings format own mu mc f p users
      ∷ deployment_settings settings.deployment
      ∷ [])

  unfoldable pub settings_page :
      QueryResult SettingsData Caught → QueryResult (List User) Caught → View Click
  settings_page settings users =
      if is_loading settings || is_loading users
      then loading_state (codes "Loading protected settings")
      else elim settings.error [
        | some e ↦ error_state (safe_error_message e) (some refetch_settings)
        | none ↦ elim users.error [
          | some e ↦ error_state (safe_error_message e) (some refetch_users)
          | none ↦ elim settings.value [
            | none ↦ nothing
            | some data_ ↦ elim users.value [ none ↦ nothing | some us ↦ loaded_view data_ us ]
          ]
        ]
      ]
