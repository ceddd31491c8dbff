-- ===== src/Settings/Users/Invariant.antt =====
-- What holds of the users' settings after any events.
use blockops.Prelude.{
  ◌≤◌, ◌≡◌, ◌≢◌, refl, Bool, true, false, Option, none, some, List, [], ◌∷◌, All, arith,
}
use blockops.Js.Text.{Text, same_text}
use blockops.Query.{is_pending, pending, Mutation}
use blockops.Settings.Users.{
  User, IntentType, disable, revoke, UserIntent, UserChange, Page, offers, close_surface,
  initial_settings, open_intent, reset_intent, close_intent, confirm_pending, confirm_intent,
  on_success, disable_resolved, revoke_resolved, UsersEvent, clicked, confirmed, closed,
  disable_accepted, revoke_accepted, disable_failed, revoke_failed, handle, run,
}

module _ {E : Type 0} (m : Mutation UserChange E) (own : Text) where
  pub record IsGuarded (p : Page m) : Type 0 where
    pub intent_guarded :
        (i : UserIntent) → p.intent ≡ some i → i.type_ ≡ disable → same_text i.user.id own ≡ false
    pub intent_numbered : (i : UserIntent) → p.intent ≡ some i → i.surface_id ≤ p.next_surface_id
    pub others_disabled : All (λ id. same_text id own ≡ false) p.disabled_ids

  on_success-IsGuarded :
      (b : Bool) (v : Option UserChange) (p : Page m) → IsGuarded p → IsGuarded (on_success m b v p)
  unfolding on_success close_surface
  on_success-IsGuarded false v p h = h
  on_success-IsGuarded true none p h = h
  on_success-IsGuarded true (some c) p h = ground arith

  open_intent-IsGuarded :
      (t : IntentType) (u : User) (p : Page m)
      → offers own t u ≡ true
      → IsGuarded p
      → IsGuarded (open_intent m t u p)
  unfolding open_intent offers
  open_intent-IsGuarded disable u p o h = ground arith
  open_intent-IsGuarded revoke u p o h = ground arith

  close_intent-IsGuarded : (p : Page m) → IsGuarded p → IsGuarded (close_intent m p)
  unfolding close_intent reset_intent
  close_intent-IsGuarded p h = ground arith

  confirm_pending-IsGuarded :
      (o : Option UserIntent) (p : Page m)
      → p.intent ≡ o
      → IsGuarded p
      → IsGuarded (confirm_pending m o p)
  unfolding confirm_pending
  confirm_pending-IsGuarded none p e h = h
  confirm_pending-IsGuarded (some i) p e h = ground (arith, h.intent_guarded i e)

  handle-IsGuarded : (e : UsersEvent E) (p : Page m) → IsGuarded p → IsGuarded (handle m own e p)
  unfolding handle confirm_intent disable_resolved revoke_resolved
  handle-IsGuarded (clicked t u) p h = ground (arith, open_intent-IsGuarded t u p)
  handle-IsGuarded confirmed p h = ground (arith, confirm_pending-IsGuarded p.intent p refl h)
  handle-IsGuarded closed p h = close_intent-IsGuarded p h
  handle-IsGuarded disable_accepted p h =
      on_success-IsGuarded (is_pending (m.status p.disabling)) (m.variables p.disabling)
        (record p { disabling = m.resolve p.disabling }) (ground arith)
  handle-IsGuarded revoke_accepted p h =
      on_success-IsGuarded (is_pending (m.status p.revoking)) (m.variables p.revoking)
        (record p { revoking = m.resolve p.revoking }) (ground arith)
  handle-IsGuarded (disable_failed e) p h = ground arith
  handle-IsGuarded (revoke_failed e) p h = ground arith

  run-IsGuarded' :
      (es : List (UsersEvent E)) (p : Page m) → IsGuarded p → IsGuarded (run m own es p)
  run-IsGuarded' [] p h = h
  run-IsGuarded' (e ∷ es) p h = run-IsGuarded' es (handle m own e p) (handle-IsGuarded e p h)

  initial_settings-IsGuarded : IsGuarded (initial_settings m)
  initial_settings-IsGuarded = ground arith

-- After any events, nobody has disabled the account that is signed in, nor opened the dialog for
-- that, and the number of an open dialog is one that was given out.
pub run-IsGuarded :
    {E : Type 0} (m : Mutation UserChange E) (own : Text) (es : List (UsersEvent E))
    → IsGuarded m own (run m own es (initial_settings m))
run-IsGuarded m own es =
    run-IsGuarded' m own es (initial_settings m) (initial_settings-IsGuarded m own)

-- When a call to disable a user succeeds while it is followed, the open dialog closes if it is the
-- one that started the call, and stays as it is if it is another one.
pub disable_resolved-surface :
    {E : Type 0} (m : Mutation UserChange E) (p : Page m) (c : UserChange) (i : UserIntent)
    → m.status p.disabling ≡ pending
    → m.variables p.disabling ≡ some c
    → p.intent ≡ some i
    → (c.surface_id ≡ i.surface_id → (disable_resolved m p).intent ≡ none)
      × (c.surface_id ≢ i.surface_id → (disable_resolved m p).intent ≡ some i)
unfolding disable_resolved on_success close_surface
disable_resolved-surface m p c i s v o = ground arith
