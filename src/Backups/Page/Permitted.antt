-- ===== src/Backups/Page/Permitted.antt =====
-- What the backups page sends after any events.
use blockops.Prelude.{◌<◌, ◌≡◌, ◌≢◌, refl, true, Option, none, some, List, [], ◌∷◌, arith}
use blockops.Js.Text.{Text}
use blockops.Query.{Mutation}
use blockops.Auth.Permissions.{
  Role, backups_create, backups_delete, backups_restore, has_permission,
}
use blockops.Backups.Page.{
  BackupIntent, create, delete, restore, allowed, Page, initial_page, close_dialog, run_intent,
  create_resolved, delete_resolved, restore_resolved, PageEvent, clicked, confirmed, closed,
  created_, deleted_, restored_, create_failed, delete_failed, restore_failed, handle, run,
}

module _ {E : Type 0} (mc : Mutation Unit E) (mr : Mutation Text E) (role : Role) where
  pub record IsAllowed (p : Page mc mr) : Type 0 where
    pub intent_allowed : (i : BackupIntent) → p.intent ≡ some i → allowed role i ≡ true
    pub created_allowed : 0 < p.created → has_permission role backups_create ≡ true
    pub removed_allowed : p.removed ≢ [] → has_permission role backups_delete ≡ true
    pub restored_allowed : p.restored ≢ [] → has_permission role backups_restore ≡ true

  close_dialog-IsAllowed :
      (o : Option BackupIntent) (p : Page mc mr) → IsAllowed p → IsAllowed (close_dialog mc mr o p)
  unfolding close_dialog
  close_dialog-IsAllowed none p h = ground arith
  close_dialog-IsAllowed (some create) p h = ground arith
  close_dialog-IsAllowed (some (delete id)) p h = ground arith
  close_dialog-IsAllowed (some (restore id)) p h = ground arith

  run_intent-IsAllowed :
      (o : Option BackupIntent) (p : Page mc mr)
      → p.intent ≡ o
      → IsAllowed p
      → IsAllowed (run_intent mc mr o p)
  unfolding run_intent allowed
  run_intent-IsAllowed none p e h = h
  run_intent-IsAllowed (some create) p e h = ground (arith, h.intent_allowed create e)
  run_intent-IsAllowed (some (delete id)) p e h = ground (arith, h.intent_allowed (delete id) e)
  run_intent-IsAllowed (some (restore id)) p e h = ground (arith, h.intent_allowed (restore id) e)

  handle-IsAllowed :
      (e : PageEvent E) (p : Page mc mr) → IsAllowed p → IsAllowed (handle mc mr role e p)
  unfolding handle create_resolved delete_resolved restore_resolved
  handle-IsAllowed (clicked i) p h = ground arith
  handle-IsAllowed confirmed p h = ground (arith, run_intent-IsAllowed p.intent p refl h)
  handle-IsAllowed closed p h = close_dialog-IsAllowed p.intent p h
  handle-IsAllowed created_ p h =
      ground
        (arith, close_dialog-IsAllowed p.captured (record p { creation = mc.resolve p.creation }))
  handle-IsAllowed deleted_ p h =
      ground
        (arith, close_dialog-IsAllowed p.captured (record p { removal = mr.resolve p.removal }))
  handle-IsAllowed restored_ p h = ground (
    arith,
    close_dialog-IsAllowed p.captured (record p { restoration = mr.resolve p.restoration }),
  )
  handle-IsAllowed (create_failed e) p h = ground arith
  handle-IsAllowed (delete_failed e) p h = ground arith
  handle-IsAllowed (restore_failed e) p h = ground arith

  run-IsAllowed' :
      (es : List (PageEvent E)) (p : Page mc mr) → IsAllowed p → IsAllowed (run mc mr role es p)
  run-IsAllowed' [] p h = h
  run-IsAllowed' (e ∷ es) p h = run-IsAllowed' es (handle mc mr role e p) (handle-IsAllowed e p h)

  initial_page-IsAllowed : IsAllowed (initial_page mc mr)
  initial_page-IsAllowed = ground arith

-- After any events, a dialog is open only for an intent that the role may carry out, and no backup
-- is created, deleted or restored without the permission for it.
pub run-IsAllowed :
    {E : Type 0} (mc : Mutation Unit E) (mr : Mutation Text E) (role : Role)
    (es : List (PageEvent E))
    → IsAllowed mc mr role (run mc mr role es (initial_page mc mr))
run-IsAllowed mc mr role es =
    run-IsAllowed' mc mr role es (initial_page mc mr) (initial_page-IsAllowed mc mr role)
