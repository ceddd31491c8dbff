-- ===== src/Backups/Page.antt =====
-- backups-page.tsx, components/backup-row.tsx and components/backup-action-dialog.tsx: the dialog of
-- one intent, the three mutations behind it, and the controls that open it.
--
-- `captured` is the value of `intent` in the closure of the last `mutate` call's `onSuccess`: at
-- most one of the three mutations is followed at a time.
pub mod Invariant
pub mod Permitted
pub mod Tests
use blockops.Prelude.{
  ℕ, ◌+◌, Bool, true, false, not, ◌&&◌, ◌||◌, Option, none, some, List, [], ◌∷◌, ◌++◌, is_some,
  if◌then◌else◌,
}
use blockops.Js.Text.{Text, codes}
use blockops.Query.{is_pending, Mutation}
use blockops.Auth.Permissions.{
  Role, backups_create, backups_delete, backups_restore, backups_download, has_permission,
}

pub data BackupIntent : Type 0 where
  create : BackupIntent
  delete restore : Text → BackupIntent

pub record IntentCopy : Type 0 where
  pub title : Text
  pub description : Text
  pub label : Text

-- `copy[intent.type]`
unfoldable pub intent_copy : BackupIntent → IntentCopy
intent_copy create = record {
  title = codes "Create a consistent backup?";
  description =
      codes
        "World saves will be disabled briefly while BlockOps flushes and archives the configured worlds.";
  label = codes "Create backup";
}
intent_copy (delete id) = record {
  title = codes "Delete this backup?";
  description =
      codes
        "The local archive and its catalog record will be permanently removed. This cannot be undone.";
  label = codes "Delete backup";
}
intent_copy (restore id) = record {
  title = codes "Restore this backup?";
  description =
      codes
        "BlockOps will stop the server, replace current world directories with this recovery point, and restart. The prior world is kept for rollback until installation succeeds.";
  label = codes "Restore backup";
}

-- Whether the page has a control for an intent.
unfoldable pub allowed : Role → BackupIntent → Bool
allowed role create = has_permission role backups_create
allowed role (delete id) = has_permission role backups_delete
allowed role (restore id) = has_permission role backups_restore

-- The controls of a row, in order; `none` is the link for the download.
unfoldable pub row_controls : Role → Text → List (Option BackupIntent)
row_controls role id =
    (if has_permission role backups_download then none ∷ [] else [])
    ++ ((if has_permission role backups_restore then some (restore id) ∷ [] else [])
        ++ (if has_permission role backups_delete then some (delete id) ∷ [] else []))

pub record BackupsPage (C R : Type 0) : Type 0 where
  pub intent : Option BackupIntent
  pub creation : C
  pub removal : R
  pub restoration : R
  pub captured : Option BackupIntent
  pub created : ℕ
  pub removed : List Text
  pub restored : List Text

module _ {E : Type 0} (mc : Mutation Unit E) (mr : Mutation Text E) where
  abbrev pub Page : Type 0
  Page = BackupsPage mc.State mr.State

  abbrev pub initial_page : Page
  initial_page = record {
    intent = none;
    creation = mc.initial;
    removal = mr.initial;
    restoration = mr.initial;
    captured = none;
    created = 0;
    removed = [];
    restored = [];
  }

  unfoldable pub busy : Page → Bool
  busy p =
      is_pending (mc.status p.creation)
      || is_pending (mr.status p.removal)
      || is_pending (mr.status p.restoration)

  -- `closeDialog` of the render in which `intent` was the first argument
  unfoldable pub close_dialog : Option BackupIntent → Page → Page
  close_dialog none p = record p { intent = none }
  close_dialog (some create) p = record p { creation = mc.reset p.creation; intent = none }
  close_dialog (some (delete id)) p = record p { removal = mr.reset p.removal; intent = none }
  close_dialog (some (restore id)) p = record p {
    restoration = mr.reset p.restoration;
    intent = none;
  }

  unfoldable pub run_intent : Option BackupIntent → Page → Page
  run_intent none p = p
  run_intent (some create) p = record p {
    creation = mc.mutate tt p.creation;
    captured = some create;
    created = p.created + 1;
  }
  run_intent (some (delete id)) p = record p {
    removal = mr.mutate id p.removal;
    captured = some (delete id);
    removed = id ∷ p.removed;
  }
  run_intent (some (restore id)) p = record p {
    restoration = mr.mutate id p.restoration;
    captured = some (restore id);
    restored = id ∷ p.restored;
  }

  -- `mutationError`
  unfoldable pub intent_error : Option BackupIntent → Page → Option E
  intent_error none p = none
  intent_error (some create) p = mc.error p.creation
  intent_error (some (delete id)) p = mr.error p.removal
  intent_error (some (restore id)) p = mr.error p.restoration

  abbrev pub mutation_error : Page → Option E
  mutation_error p = intent_error p.intent p

  -- The server has accepted a call: `closeDialog` runs while the observer still follows it.
  unfoldable pub create_resolved : Page → Page
  unfolding close_dialog
  create_resolved p =
      let settled = record p { creation = mc.resolve p.creation } in
      if is_pending (mc.status p.creation) then close_dialog p.captured settled else settled

  unfoldable pub delete_resolved : Page → Page
  unfolding close_dialog
  delete_resolved p =
      let settled = record p { removal = mr.resolve p.removal } in
      if is_pending (mr.status p.removal) then close_dialog p.captured settled else settled

  unfoldable pub restore_resolved : Page → Page
  unfolding close_dialog
  restore_resolved p =
      let settled = record p { restoration = mr.resolve p.restoration } in
      if is_pending (mr.status p.restoration) then close_dialog p.captured settled else settled

pub data PageEvent (E : Type 0) : Type 0 where
  clicked : BackupIntent → PageEvent E
  confirmed closed created_ deleted_ restored_ : PageEvent E
  create_failed delete_failed restore_failed : E → PageEvent E

-- An event of a control that is not rendered, or disabled, does nothing: a control opens the dialog
-- only for an allowed intent and while no dialog, which is modal, is open; a busy dialog does not
-- confirm.
module _ {E : Type 0} (mc : Mutation Unit E) (mr : Mutation Text E) (role : Role) where
  unfoldable pub handle : PageEvent E → Page mc mr → Page mc mr
  unfolding close_dialog run_intent create_resolved delete_resolved restore_resolved busy allowed
  handle (clicked i) p =
      if allowed role i && not (is_some p.intent) then record p { intent = some i } else p
  handle confirmed p = if busy mc mr p then p else run_intent mc mr p.intent p
  handle closed p = close_dialog mc mr p.intent p
  handle created_ p = create_resolved mc mr p
  handle deleted_ p = delete_resolved mc mr p
  handle restored_ p = restore_resolved mc mr p
  handle (create_failed e) p = record p { creation = mc.reject e p.creation }
  handle (delete_failed e) p = record p { removal = mr.reject e p.removal }
  handle (restore_failed e) p = record p { restoration = mr.reject e p.restoration }

  abbrev pub run : List (PageEvent E) → Page mc mr → Page mc mr
  run [] p = p
  run (e ∷ es) p = run es (handle e p)
