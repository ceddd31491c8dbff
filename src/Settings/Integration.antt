-- ===== src/Settings/Integration.antt =====
-- components/integration-settings.tsx: the form of the RCON credentials.
--
-- The form is rendered only if updates are enabled, and its button is disabled while a call is under
-- way.
pub mod Laws
use blockops.Prelude.{
  ℕ, Bool, true, false, not, ◌&&◌, ◌||◌, Option, none, some, List, [], ◌∷◌, if◌then◌else◌,
}
use blockops.Js.Text.{Text}
use blockops.Zod.{Zod, ObjectParsed, accepted, rejected}
use blockops.Query.{is_pending, is_error, is_success, Mutation}
use blockops.Settings.Schema.{rcon_address_schema, rcon_password_schema}

pub record RconCredentials : Type 0 where
  pub address : Text
  pub password : Text

pub record Integration (S : Type 0) : Type 0 where
  pub edited_address : Option Text
  pub password : Text
  pub address_error : Option Text
  pub password_error : Option Text
  pub update : S
  pub sent : List RconCredentials  -- the newest first

-- `editedAddress ?? status.address`
abbrev pub shown_address : Option Text → Text → Text
shown_address none status = status
shown_address (some edited) status = edited

module _ {E : Type 0} (m : Mutation RconCredentials E) where
  abbrev pub initial_integration : Integration m.State
  initial_integration = record {
    edited_address = none;
    password = [];
    address_error = none;
    password_error = none;
    update = m.initial;
    sent = [];
  }

  -- A settled call is forgotten when a field is edited.
  unfoldable pub forget : m.State → m.State
  forget s = if is_error (m.status s) || is_success (m.status s) then m.reset s else s

  unfoldable pub edit_address : Text → Integration m.State → Integration m.State
  unfolding forget
  edit_address value f = record f {
    update = forget f.update;
    edited_address = some value;
    address_error = none;
  }

  unfoldable pub edit_password : Text → Integration m.State → Integration m.State
  unfolding forget
  edit_password value f = record f {
    update = forget f.update;
    password = value;
    password_error = none;
  }

  -- `submit` after `safeParse`
  unfoldable pub submit_parsed : ObjectParsed → Integration m.State → Integration m.State
  submit_parsed (accepted (a ∷ p ∷ _)) f = record f {
    address_error = none;
    password_error = none;
    update = m.mutate (record { address = a; password = p }) f.update;
    sent = record { address = a; password = p } ∷ f.sent;
  }
  submit_parsed (rejected (a ∷ p ∷ _)) f = record f {
    update = m.reset f.update;
    address_error = a;
    password_error = p;
  }
  submit_parsed _ f = f

  -- The server has stored the credentials: the callback runs while the observer follows the call.
  unfoldable pub resolved : Integration m.State → Integration m.State
  resolved f =
      let settled = record f { update = m.resolve f.update } in
      if is_pending (m.status f.update)
      then record settled { edited_address = none; password = [] }
      else settled

-- `rconCredentialsSchema.safeParse`
unfoldable pub parse_rcon : Zod → Text → Text → ObjectParsed
parse_rcon z address password =
    z.safe_parse_object ((rcon_address_schema z, address) ∷ (rcon_password_schema z, password) ∷ [])

-- `status_address` is the address of the settings at the time of the event.
pub data IntegrationEvent (E : Type 0) : Type 0 where
  address_typed password_typed : Text → IntegrationEvent E
  submitted : (status_address : Text) → IntegrationEvent E
  accepted_ : IntegrationEvent E
  failed : E → IntegrationEvent E

module _ {E : Type 0} (z : Zod) (m : Mutation RconCredentials E) (updates_enabled : Bool) where
  unfoldable pub handle : IntegrationEvent E → Integration m.State → Integration m.State
  unfolding edit_address edit_password submit_parsed parse_rcon resolved
  handle (address_typed t) f = if updates_enabled then edit_address m t f else f
  handle (password_typed t) f = if updates_enabled then edit_password m t f else f
  handle (submitted status_address) f =
      if updates_enabled && not (is_pending (m.status f.update))
      then submit_parsed m (parse_rcon z (shown_address f.edited_address status_address) f.password)
          f
      else f
  handle accepted_ f = resolved m f
  handle (failed e) f = record f { update = m.reject e f.update }

  abbrev pub run : List (IntegrationEvent E) → Integration m.State → Integration m.State
  run [] f = f
  run (e ∷ es) f = run es (handle e f)
