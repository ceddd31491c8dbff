-- ===== src/Backups/View/Dialogs.antt =====
-- The open dialog of the rendered backups page.
use blockops.Prelude.{◌≡◌, refl, Bool, Option, none, some, List, [], ◌∷◌}
use blockops.Js.Text.{Text}
use blockops.Query.{Mutation}
use blockops.Api.Error.{Caught}
use blockops.Auth.Permissions.{Role}
use blockops.Ui.{clicks, in_dialogs, page_header, empty_state}
use blockops.Ui.Dialogs.{covered, in_dialogs-nothing, in_dialogs-modal, in_dialogs-map}
use blockops.Ui.Laws.{clicks-nothing}
use blockops.Backups.Catalog.{Backup}
use blockops.Backups.Page.{BackupIntent, Page, busy, mutation_error}
use blockops.Backups.View.{Click, action_dialog, dialog_of, backup_row, catalog, loaded_view}

in_dialogs-dialog_of :
    (o : Option BackupIntent) (is_busy : Bool) (error : Option Caught)
    → in_dialogs (dialog_of o is_busy error) ≡ clicks (dialog_of o is_busy error)
unfolding dialog_of action_dialog
in_dialogs-dialog_of none is_busy error =
    rw (in_dialogs-nothing {E = Click}, clicks-nothing {E = Click}) refl
in_dialogs-dialog_of (some i) is_busy error = in_dialogs-modal _ _ _ _ _

module _ (format : Text → Option Text) (download_url : Text → Text) (role : Role) where
  in_dialogs-backup_row : (b : Backup) → in_dialogs (backup_row format download_url role b) ≡ []
  unfolding backup_row
  in_dialogs-backup_row b = simp covered

  in_dialogs-catalog : (bs : List Backup) → in_dialogs (catalog format download_url role bs) ≡ []
  unfolding catalog empty_state
  in_dialogs-catalog [] = simp covered
  in_dialogs-catalog (b ∷ bs) = in_dialogs-map _ in_dialogs-backup_row (b ∷ bs)

  pub in_dialogs-loaded_view :
      (mc : Mutation Unit Caught) (mr : Mutation Text Caught) (p : Page mc mr) (bs : List Backup)
      → in_dialogs (loaded_view format download_url role mc mr p bs)
        ≡ clicks (dialog_of p.intent (busy mc mr p) (mutation_error mc mr p))
  unfolding loaded_view page_header
  in_dialogs-loaded_view mc mr p bs = simp (covered, in_dialogs-catalog, in_dialogs-dialog_of)
