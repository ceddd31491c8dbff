-- ===== src/Settings/Users.antt =====
-- components/user-settings.tsx: disabling users and revoking their sessions.
--
-- The callback of a call closes the dialog only if it is the one that started the call: each dialog
-- has a number, `surface_id`, which is part of the call's variables.
pub mod Invariant
use blockops.Prelude.{
  ℕ, ◌+◌, Bool, true, false, not, ◌&&◌, ◌||◌, Option, none, some, List, [], ◌∷◌, is_some, ◌==◌,
  if◌then◌else◌,
}
use blockops.Js.Text.{Text, same_text}
use blockops.Query.{is_pending, is_error, Mutation}
use blockops.Auth.Session.Schema.{User}

pub data IntentType : Type 0 where
  disable revoke : IntentType

pub record UserIntent : Type 0 where
  pub type_ : IntentType
  pub user : User
  pub surface_id : ℕ

-- The variables of the two mutations.
pub record UserChange : Type 0 where
  pub user_id : Text
  pub surface_id : ℕ

pub record UserSettings (S : Type 0) : Type 0 where
  pub intent : Option UserIntent
  pub next_surface_id : ℕ
  pub disabling : S
  pub revoking : S
  pub disabled_ids : List Text  -- the newest first
  pub revoked_ids : List Text

-- Which buttons the row of a user has; `own` is `session.user.id`.
unfoldable pub offers : Text → IntentType → User → Bool
offers own revoke user = true
offers own disable user = not (same_text user.id own) && not user.disabled

-- `current?.surfaceId === initiatingSurfaceId ? null : current`
unfoldable pub close_surface : ℕ → Option UserIntent → Option UserIntent
close_surface initiating none = none
close_surface initiating (some current) =
    if current.surface_id == initiating then none else some current

abbrev pub matches_surface : Option UserChange → Option UserIntent → Bool
matches_surface none none = true
matches_surface (some c) (some i) = c.surface_id == i.surface_id
matches_surface _ _ = false

module _ {E : Type 0} (m : Mutation UserChange E) where
  abbrev pub Page : Type 0
  Page = UserSettings m.State

  abbrev pub initial_settings : Page
  initial_settings = record {
    intent = none;
    next_surface_id = 0;
    disabling = m.initial;
    revoking = m.initial;
    disabled_ids = [];
    revoked_ids = [];
  }

  unfoldable pub open_intent : IntentType → User → Page → Page
  open_intent disable user p = record p {
    disabling = m.reset p.disabling;
    next_surface_id = p.next_surface_id + 1;
    intent = some (record { type_ = disable; user = user; surface_id = p.next_surface_id + 1 });
  }
  open_intent revoke user p = record p {
    revoking = m.reset p.revoking;
    next_surface_id = p.next_surface_id + 1;
    intent = some (record { type_ = revoke; user = user; surface_id = p.next_surface_id + 1 });
  }

  -- the resets of `closeIntent`, by the type of the open intent
  unfoldable pub reset_intent : Option UserIntent → Page → Page
  reset_intent none p = p
  reset_intent (some i) p = elim i.type_ [
    | disable ↦ record p { disabling = m.reset p.disabling }
    | revoke ↦ record p { revoking = m.reset p.revoking }
  ]

  unfoldable pub close_intent : Page → Page
  unfolding reset_intent
  close_intent p = let q = reset_intent p.intent p in record q { intent = none }

  abbrev change_of : UserIntent → UserChange
  change_of i = record { user_id = i.user.id; surface_id = i.surface_id }

  unfoldable pub confirm_pending : Option UserIntent → Page → Page
  confirm_pending none p = p
  confirm_pending (some i) p = elim i.type_ [
    | disable ↦ record p {
      disabling = m.mutate (change_of i) p.disabling;
      disabled_ids = i.user.id ∷ p.disabled_ids;
    }
    | revoke ↦ record p {
      revoking = m.mutate (change_of i) p.revoking;
      revoked_ids = i.user.id ∷ p.revoked_ids;
    }
  ]

  -- `confirmIntent`
  unfoldable pub confirm_intent : Page → Page
  unfolding confirm_pending
  confirm_intent p = confirm_pending p.intent p

  -- The callback of a call with these variables, if the observer still follows it.
  unfoldable pub on_success : Bool → Option UserChange → Page → Page
  unfolding close_surface
  on_success false variables p = p
  on_success true none p = p
  on_success true (some c) p = record p { intent = close_surface c.surface_id p.intent }

  unfoldable pub disable_resolved : Page → Page
  unfolding on_success
  disable_resolved p =
      on_success (is_pending (m.status p.disabling)) (m.variables p.disabling)
        (record p { disabling = m.resolve p.disabling })

  unfoldable pub revoke_resolved : Page → Page
  unfolding on_success
  revoke_resolved p =
      on_success (is_pending (m.status p.revoking)) (m.variables p.revoking)
        (record p { revoking = m.resolve p.revoking })

  -- `activeChange`
  abbrev pub active_change : Page → m.State
  active_change p = elim p.intent [
    | none ↦ p.revoking
    | some i ↦ elim i.type_ [ disable ↦ p.disabling | revoke ↦ p.revoking ]
  ]

  -- What the dialog shows.
  unfoldable pub busy : Page → Bool
  busy p =
      matches_surface (m.variables (active_change p)) p.intent
      && is_pending (m.status (active_change p))

  unfoldable pub shows_error : Page → Bool
  shows_error p =
      matches_surface (m.variables (active_change p)) p.intent
      && is_error (m.status (active_change p))

pub data UsersEvent (E : Type 0) : Type 0 where
  clicked : IntentType → User → UsersEvent E
  confirmed closed disable_accepted revoke_accepted : UsersEvent E
  disable_failed revoke_failed : E → UsersEvent E

-- A button that is not rendered, or that a modal dialog covers, or that is disabled, does nothing.
module _ {E : Type 0} (m : Mutation UserChange E) (own : Text) where
  unfoldable pub handle : UsersEvent E → Page m → Page m
  unfolding open_intent close_intent confirm_intent disable_resolved revoke_resolved offers busy
  handle (clicked t user) p =
      if offers own t user && not (is_some p.intent) then open_intent m t user p else p
  handle confirmed p = if busy m p then p else confirm_intent m p
  handle closed p = close_intent m p
  handle disable_accepted p = disable_resolved m p
  handle revoke_accepted p = revoke_resolved m p
  handle (disable_failed e) p = record p { disabling = m.reject e p.disabling }
  handle (revoke_failed e) p = record p { revoking = m.reject e p.revoking }

  abbrev pub run : List (UsersEvent E) → Page m → Page m
  run [] p = p
  run (e ∷ es) p = run es (handle e p)
