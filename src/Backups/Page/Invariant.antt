-- ===== src/Backups/Page/Invariant.antt =====
-- What the backups page sends and shows after any events.
use blockops.Prelude.{
  ◌≡◌, refl, Bool, true, false, not, ◌&&◌, Option, none, some, List, [], ◌∷◌, is_some, inl, inr,
  arith, if◌then◌else◌,
}
use blockops.Js.Text.{Text}
use blockops.Query.{idle, pending, pending-cases, Mutation}
use blockops.Auth.Permissions.{Role}
use blockops.Backups.Page.{
  BackupIntent, create, delete, restore, allowed, Page, initial_page, busy, close_dialog,
  run_intent, create_resolved, delete_resolved, restore_resolved, PageEvent, clicked, confirmed,
  closed, created_, deleted_, restored_, create_failed, delete_failed, restore_failed, handle, run,
}

abbrev pub is_create : Option BackupIntent → Bool
is_create (some create) = true
is_create _ = false

abbrev pub is_delete : Option BackupIntent → Bool
is_delete (some (delete id)) = true
is_delete _ = false

abbrev pub is_restore : Option BackupIntent → Bool
is_restore (some (restore id)) = true
is_restore _ = false

module _ {E : Type 0} (mc : Mutation Unit E) (mr : Mutation Text E) (role : Role) where
  -- A mutation is used only under the dialog of its intent.
  pub record IsFocused (p : Page mc mr) : Type 0 where
    pub create_idle : is_create p.intent ≡ false → mc.status p.creation ≡ idle
    pub create_clean : is_create p.intent ≡ false → mc.error p.creation ≡ none
    pub delete_idle : is_delete p.intent ≡ false → mr.status p.removal ≡ idle
    pub delete_clean : is_delete p.intent ≡ false → mr.error p.removal ≡ none
    pub restore_idle : is_restore p.intent ≡ false → mr.status p.restoration ≡ idle
    pub restore_clean : is_restore p.intent ≡ false → mr.error p.restoration ≡ none
    pub captured_intent : busy mc mr p ≡ true → p.captured ≡ p.intent

  close_dialog-IsFocused :
      (o : Option BackupIntent) (p : Page mc mr)
      → p.intent ≡ o
      → IsFocused p
      → IsFocused (close_dialog mc mr o p)
  unfolding close_dialog busy
  close_dialog-IsFocused none p e h = ground arith
  close_dialog-IsFocused (some create) p e h =
      ground (arith, mc.reset_status p.creation, mc.reset_error p.creation)
  close_dialog-IsFocused (some (delete id)) p e h =
      ground (arith, mr.reset_status p.removal, mr.reset_error p.removal)
  close_dialog-IsFocused (some (restore id)) p e h =
      ground (arith, mr.reset_status p.restoration, mr.reset_error p.restoration)

  run_intent-IsFocused :
      (o : Option BackupIntent) (p : Page mc mr)
      → p.intent ≡ o
      → IsFocused p
      → IsFocused (run_intent mc mr o p)
  unfolding run_intent busy
  run_intent-IsFocused none p e h = h
  run_intent-IsFocused (some create) p e h = ground arith
  run_intent-IsFocused (some (delete id)) p e h = ground arith
  run_intent-IsFocused (some (restore id)) p e h = ground arith

  create_settled :
      (p : Page mc mr) (s : mc.State)
      → mc.status p.creation ≡ pending
      → IsFocused p
      → IsFocused (record p { creation = s })
  unfolding busy
  create_settled p s e h = ground arith

  create_captured :
      (p : Page mc mr) → mc.status p.creation ≡ pending → IsFocused p → p.intent ≡ p.captured
  unfolding busy
  create_captured p e h = ground arith

  create_resolved-IsFocused : (p : Page mc mr) → IsFocused p → IsFocused (create_resolved mc mr p)
  unfolding create_resolved
  create_resolved-IsFocused p h = elim (pending-cases (mc.status p.creation)) [
    | inl e ↦ rw e (
        close_dialog-IsFocused p.captured (record p { creation = mc.resolve p.creation })
          (create_captured p e h) (create_settled p (mc.resolve p.creation) e h))
    | inr n ↦ ground (arith, mc.resolve_detached p.creation n)
  ]

  create_rejected-IsFocused :
      (e : E) (p : Page mc mr)
      → IsFocused p
      → IsFocused (record p { creation = mc.reject e p.creation })
  create_rejected-IsFocused e p h = elim (pending-cases (mc.status p.creation)) [
    | inl s ↦ create_settled p (mc.reject e p.creation) s h
    | inr n ↦ rw (mc.reject_detached e p.creation n) h
  ]

  delete_settled :
      (p : Page mc mr) (s : mr.State)
      → mr.status p.removal ≡ pending
      → IsFocused p
      → IsFocused (record p { removal = s })
  unfolding busy
  delete_settled p s e h = ground arith

  delete_captured :
      (p : Page mc mr) → mr.status p.removal ≡ pending → IsFocused p → p.intent ≡ p.captured
  unfolding busy
  delete_captured p e h = ground arith

  delete_resolved-IsFocused : (p : Page mc mr) → IsFocused p → IsFocused (delete_resolved mc mr p)
  unfolding delete_resolved
  delete_resolved-IsFocused p h = elim (pending-cases (mr.status p.removal)) [
    | inl e ↦ rw e (
        close_dialog-IsFocused p.captured (record p { removal = mr.resolve p.removal })
          (delete_captured p e h) (delete_settled p (mr.resolve p.removal) e h))
    | inr n ↦ ground (arith, mr.resolve_detached p.removal n)
  ]

  delete_rejected-IsFocused :
      (e : E) (p : Page mc mr)
      → IsFocused p
      → IsFocused (record p { removal = mr.reject e p.removal })
  delete_rejected-IsFocused e p h = elim (pending-cases (mr.status p.removal)) [
    | inl s ↦ delete_settled p (mr.reject e p.removal) s h
    | inr n ↦ rw (mr.reject_detached e p.removal n) h
  ]

  restore_settled :
      (p : Page mc mr) (s : mr.State)
      → mr.status p.restoration ≡ pending
      → IsFocused p
      → IsFocused (record p { restoration = s })
  unfolding busy
  restore_settled p s e h = ground arith

  restore_captured :
      (p : Page mc mr) → mr.status p.restoration ≡ pending → IsFocused p → p.intent ≡ p.captured
  unfolding busy
  restore_captured p e h = ground arith

  restore_resolved-IsFocused : (p : Page mc mr) → IsFocused p → IsFocused (restore_resolved mc mr p)
  unfolding restore_resolved
  restore_resolved-IsFocused p h = elim (pending-cases (mr.status p.restoration)) [
    | inl e ↦ rw e (
        close_dialog-IsFocused p.captured (record p { restoration = mr.resolve p.restoration })
          (restore_captured p e h) (restore_settled p (mr.resolve p.restoration) e h))
    | inr n ↦ ground (arith, mr.resolve_detached p.restoration n)
  ]

  restore_rejected-IsFocused :
      (e : E) (p : Page mc mr)
      → IsFocused p
      → IsFocused (record p { restoration = mr.reject e p.restoration })
  restore_rejected-IsFocused e p h = elim (pending-cases (mr.status p.restoration)) [
    | inl s ↦ restore_settled p (mr.reject e p.restoration) s h
    | inr n ↦ rw (mr.reject_detached e p.restoration n) h
  ]

  opened-IsFocused :
      (i : BackupIntent) (p : Page mc mr)
      → p.intent ≡ none
      → IsFocused p
      → IsFocused (record p { intent = some i })
  unfolding busy
  opened-IsFocused create p e h = ground arith
  opened-IsFocused (delete id) p e h = ground arith
  opened-IsFocused (restore id) p e h = ground arith

  -- A click that opens does so while no dialog is open.
  clicked-IsFocused :
      (opens : Bool) (i : BackupIntent) (p : Page mc mr)
      → (opens ≡ true → p.intent ≡ none)
      → IsFocused p
      → IsFocused (if opens then record p { intent = some i } else p)
  clicked-IsFocused false i p n h = h
  clicked-IsFocused true i p n h = opened-IsFocused i p (n refl) h

  opens_closed : (b : Bool) (o : Option BackupIntent) → (b && not (is_some o)) ≡ true → o ≡ none
  opens_closed b o e = ground arith

  handle-IsFocused :
      (e : PageEvent E) (p : Page mc mr) → IsFocused p → IsFocused (handle mc mr role e p)
  unfolding handle
  handle-IsFocused (clicked i) p h =
      clicked-IsFocused (allowed role i && not (is_some p.intent)) i p
        (opens_closed (allowed role i) p.intent) h
  handle-IsFocused confirmed p h = ground (arith, run_intent-IsFocused p.intent p refl h)
  handle-IsFocused closed p h = close_dialog-IsFocused p.intent p refl h
  handle-IsFocused created_ p h = create_resolved-IsFocused p h
  handle-IsFocused deleted_ p h = delete_resolved-IsFocused p h
  handle-IsFocused restored_ p h = restore_resolved-IsFocused p h
  handle-IsFocused (create_failed e) p h = create_rejected-IsFocused e p h
  handle-IsFocused (delete_failed e) p h = delete_rejected-IsFocused e p h
  handle-IsFocused (restore_failed e) p h = restore_rejected-IsFocused e p h

  run-IsFocused' :
      (es : List (PageEvent E)) (p : Page mc mr) → IsFocused p → IsFocused (run mc mr role es p)
  run-IsFocused' [] p h = h
  run-IsFocused' (e ∷ es) p h = run-IsFocused' es (handle mc mr role e p) (handle-IsFocused e p h)

  initial_page-IsFocused : IsFocused (initial_page mc mr)
  unfolding busy
  initial_page-IsFocused =
      ground (arith, mc.initial_status, mc.initial_error, mr.initial_status, mr.initial_error)

-- After any events, each of the three mutations is idle and without an error unless the dialog of
-- its own intent is open, so a failure never shows in the dialog of another backup or action; and
-- while one is pending, the callback that will close the dialog belongs to the open one.
pub run-IsFocused :
    {E : Type 0} (mc : Mutation Unit E) (mr : Mutation Text E) (role : Role)
    (es : List (PageEvent E))
    → IsFocused mc mr role (run mc mr role es (initial_page mc mr))
run-IsFocused mc mr role es =
    run-IsFocused' mc mr role es (initial_page mc mr) (initial_page-IsFocused mc mr role)
