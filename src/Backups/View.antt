-- ===== src/Backups/View.antt =====
-- features/backups: what backups-page.tsx, backup-row.tsx and backup-action-dialog.tsx render.
--
-- `format` stands for the dates of `Intl`, and `download_url` for `backupDownloadUrl` while a server is
-- selected.
pub mod Laws
pub mod Dialogs
mod Tests
use blockops.Prelude.{
  Bool, true, false, not, ◌&&◌, ◌||◌, Option, none, some, List, [], ◌∷◌, ◌++◌, map, is_some,
  if◌then◌else◌,
}
use blockops.Js.Text.{Text, codes}
use blockops.Formatters.{format_bytes, format_date}
use blockops.Ui.{
  View, nothing, words, heading, pill, good, button, link, standard, secondary, destructive, views,
  beside, shown_if, danger, loading_state, error_state, empty_state, notice, page_header, modal,
}
use blockops.Query.{QueryResult, is_loading, Mutation}
use blockops.Api.Error.{Caught, safe_error_message}
use blockops.Auth.Permissions.{
  Role, backups_create, backups_delete, backups_restore, backups_download, has_permission,
}
use blockops.Backups.Catalog.{Backup}
use blockops.Backups.Page.{
  BackupIntent, create, delete, restore, intent_copy, Page, busy, mutation_error, PageEvent,
  clicked, confirmed, closed,
}

-- What a click calls: a handler of the page, `refetch`, or a download.
pub data Click : Type 0 where
  on_page : PageEvent Caught → Click
  refetch : Click
  download : Text → Click

abbrev pub is_create : BackupIntent → Bool
is_create create = true
is_create _ = false

abbrev pub error_notice : Option Caught → View Click
error_notice none = nothing
error_notice (some e) = notice danger (words (safe_error_message e))

-- components/backup-action-dialog.tsx
unfoldable pub action_dialog : BackupIntent → Bool → Option Caught → View Click
unfolding intent_copy
action_dialog intent is_busy error =
    let copy = intent_copy intent in
    modal true copy.title (some copy.description) (on_page closed) (
      views (
        error_notice error
        ∷ button secondary (codes "Cancel") (not is_busy) (on_page closed)
        ∷ button (if is_create intent then standard else destructive)
            (if is_busy then codes "Working…" else copy.label) (not is_busy) (on_page confirmed)
        ∷ []))

-- `intent ? … : null`
unfoldable pub dialog_of : Option BackupIntent → Bool → Option Caught → View Click
unfolding action_dialog
dialog_of none is_busy error = nothing
dialog_of (some intent) is_busy error = action_dialog intent is_busy error

module _ (format : Text → Option Text) (download_url : Text → Text) (role : Role) where
  -- components/backup-row.tsx
  unfoldable pub backup_row : Backup → View Click
  backup_row backup = views (
      heading (format_date format (some backup.created_at))
      ∷ pill good (codes "ready")
      ∷ words (
          codes "Created by "
          ++ (backup.created_by ++ (codes " · " ++ format_bytes (some backup.size_bytes))))
      ∷ words backup.id
      ∷ shown_if (has_permission role backups_download)
          (link (codes "Download") (download (download_url backup.id)))
      ∷ shown_if (has_permission role backups_restore)
          (button secondary (codes "Restore") true (on_page (clicked (restore backup.id))))
      ∷ shown_if (has_permission role backups_delete)
          (button destructive (codes "Delete") true (on_page (clicked (delete backup.id))))
      ∷ [])

  abbrev create_button : Text → View Click
  create_button label =
      shown_if (has_permission role backups_create)
        (button standard label true (on_page (clicked create)))

  unfoldable pub catalog : List Backup → View Click
  unfolding backup_row
  catalog [] =
      empty_state (codes "No backups yet")
        (codes
          "Create the first consistent recovery point when RCON and the world volume are available.")
        (create_button (codes "Create first backup"))
  catalog (backup ∷ backups) = views (map backup_row (backup ∷ backups))

  module _ (mc : Mutation Unit Caught) (mr : Mutation Text Caught) (p : Page mc mr) where
    unfoldable pub loaded_view : List Backup → View Click
    unfolding catalog dialog_of
    loaded_view backups = views (
        page_header (some (codes "Local recovery points")) (codes "Backups")
          (codes
            "Consistent archives on the configured local backup volume. Remote providers remain on the roadmap.")
          (create_button (codes "Create backup"))
        ∷ catalog backups
        ∷ heading (codes "Manual retention")
        ∷ words (
            codes
              "The MVP never deletes backups automatically. Review free space and remove recovery points intentionally.")
        ∷ dialog_of p.intent (busy mc mr p) (mutation_error mc mr p)
        ∷ [])

    abbrev failed_view : Option Caught → View Click
    failed_view none = error_state (codes "Something went wrong.") (some refetch)
    failed_view (some e) = error_state (safe_error_message e) (some refetch)

    unfoldable pub backups_page : QueryResult (List Backup) Caught → View Click
    unfolding loaded_view
    backups_page q =
        if is_loading q
        then loading_state (codes "Loading local backup catalog")
        else elim q.error [
          | some e ↦ failed_view (some e)
          | none ↦ elim q.value [ none ↦ failed_view none | some backups ↦ loaded_view backups ]
        ]
