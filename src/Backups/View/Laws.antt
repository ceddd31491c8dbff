-- ===== src/Backups/View/Laws.antt =====
-- Which intents the rendered backups page offers.
use blockops.Prelude.{
  ◌≡◌, refl, ◌∙◌, Bool, true, false, Option, none, some, List, [], ◌∷◌, ◌++◌, map, append-nil,
  Bool-cases, is_some, if◌then◌else◌, arith,
}
use blockops.Js.Text.{Text}
use blockops.Query.{QueryResult, is_loading, Mutation}
use blockops.Api.Error.{Caught}
use blockops.Auth.Permissions.{
  Role, backups_create, backups_delete, backups_restore, backups_download, has_permission,
}
use blockops.Ui.{views, clicks, in_dialogs, click_if, notice, page_header, empty_state}
use blockops.Ui.Laws.{clicks-modal}
use blockops.Backups.Catalog.{Backup}
use blockops.Backups.Page.{
  BackupIntent, create, delete, restore, allowed, Page, busy, mutation_error, clicked, confirmed,
  closed,
}
use blockops.Backups.View.Dialogs.{in_dialogs-loaded_view}
use blockops.Backups.View.{
  Click, on_page, download, error_notice, action_dialog, dialog_of, backup_row, catalog,
  loaded_view, backups_page,
}

clicks-error_notice : (o : Option Caught) → clicks (error_notice o) ≡ []
unfolding clicks notice
clicks-error_notice none = refl
clicks-error_notice (some e) = refl

-- What a role may ask for.
abbrev pub offered : Role → BackupIntent → List Click
offered role i = click_if (allowed role i) (on_page (clicked i))

module _ (format : Text → Option Text) (download_url : Text → Text) (role : Role) where
  abbrev pub row_clicks : Backup → List Click
  row_clicks b =
      click_if (has_permission role backups_download) (download (download_url b.id))
      ++ (offered role (restore b.id) ++ offered role (delete b.id))

  abbrev pub rows_clicks : List Backup → List Click
  rows_clicks [] = []
  rows_clicks (b ∷ bs) = row_clicks b ++ rows_clicks bs

  clicks-backup_row : (b : Backup) → clicks (backup_row format download_url role b) ≡ row_clicks b
  unfolding clicks backup_row allowed
  clicks-backup_row b = ground (
    arith,
    Bool-cases (has_permission role backups_download),
    Bool-cases (has_permission role backups_restore),
    Bool-cases (has_permission role backups_delete),
  )

  clicks-rows :
      (bs : List Backup)
      → clicks (views (map (backup_row format download_url role) bs)) ≡ rows_clicks bs
  unfolding clicks
  clicks-rows [] = refl
  clicks-rows (b ∷ bs) = rw (clicks-backup_row b, clicks-rows bs) refl

  -- An empty catalog has a button that creates a backup.
  abbrev pub catalog_clicks : List Backup → List Click
  catalog_clicks [] = offered role create
  catalog_clicks (b ∷ bs) = rows_clicks (b ∷ bs)

  clicks-catalog :
      (bs : List Backup) → clicks (catalog format download_url role bs) ≡ catalog_clicks bs
  unfolding clicks catalog empty_state allowed
  clicks-catalog [] = ground (arith, Bool-cases (has_permission role backups_create))
  clicks-catalog (b ∷ bs) = clicks-rows (b ∷ bs)

-- What the dialog lets the user do: dismiss it or close it, and cancel or confirm while not busy.
abbrev pub dialog_clicks : Bool → List Click
dialog_clicks is_busy =
    on_page closed
    ∷ on_page closed
    ∷ (if is_busy then [] else on_page closed ∷ on_page confirmed ∷ [])

clicks-action_dialog :
    (i : BackupIntent) (is_busy : Bool) (error : Option Caught)
    → clicks (action_dialog i is_busy error) ≡ dialog_clicks is_busy
unfolding clicks action_dialog
clicks-action_dialog i true error = simp (clicks-modal, clicks-error_notice)
clicks-action_dialog i false error = simp (clicks-modal, clicks-error_notice)

clicks-dialog_of :
    (o : Option BackupIntent) (is_busy : Bool) (error : Option Caught)
    → clicks (dialog_of o is_busy error) ≡ (if is_some o then dialog_clicks is_busy else [])
unfolding dialog_of
clicks-dialog_of none is_busy error = unfold clicks in refl
clicks-dialog_of (some i) is_busy error = clicks-action_dialog i is_busy error

answered_loading :
    (q : QueryResult (List Backup) Caught) (bs : List Backup)
    → q.value ≡ some bs
    → is_loading q ≡ false
answered_loading q bs v = ground arith

backups_page-loaded :
    (format : Text → Option Text) (download_url : Text → Text) (role : Role)
    (mc : Mutation Unit Caught) (mr : Mutation Text Caught) (p : Page mc mr)
    (q : QueryResult (List Backup) Caught) (bs : List Backup)
    → q.error ≡ none
    → q.value ≡ some bs
    → backups_page format download_url role mc mr p q
      ≡ loaded_view format download_url role mc mr p bs
unfolding backups_page
backups_page-loaded format download_url role mc mr p q bs e v =
    rw (answered_loading q bs v, e, v) refl

clicks-loaded_view :
    (format : Text → Option Text) (download_url : Text → Text) (role : Role)
    (mc : Mutation Unit Caught) (mr : Mutation Text Caught) (p : Page mc mr) (bs : List Backup)
    → clicks (loaded_view format download_url role mc mr p bs)
      ≡ offered role create
        ++ (catalog_clicks format download_url role bs
            ++ (if is_some p.intent then dialog_clicks (busy mc mr p) else []))
unfolding clicks loaded_view page_header allowed
clicks-loaded_view format download_url role mc mr p bs = ground (
  arith,
  Bool-cases (has_permission role backups_create),
  clicks-catalog format download_url role bs,
  clicks-dialog_of p.intent (busy mc mr p) (mutation_error mc mr p),
  append-nil (if is_some p.intent then dialog_clicks (busy mc mr p) else []),
)

-- While the catalog is loaded, the page has enabled controls for exactly this: to ask for what the role
-- may create, and for each backup to download, restore and delete it as far as the role may; and, while
-- an intent is open, to close its dialog, and to confirm it unless a mutation is under way. The open
-- dialog has those of the intent, and no others.
pub backups_page-clicks :
    (format : Text → Option Text) (download_url : Text → Text) (role : Role)
    (mc : Mutation Unit Caught) (mr : Mutation Text Caught) (p : Page mc mr)
    (q : QueryResult (List Backup) Caught) (bs : List Backup)
    → q.error ≡ none
    → q.value ≡ some bs
    → let shown : List Click = if is_some p.intent then dialog_clicks (busy mc mr p) else [] in
      (clicks (backups_page format download_url role mc mr p q)
        ≡ offered role create ++ (catalog_clicks format download_url role bs ++ shown))
      × (in_dialogs (backups_page format download_url role mc mr p q) ≡ shown)
backups_page-clicks format download_url role mc mr p q bs e v =
    rw (backups_page-loaded format download_url role mc mr p q bs e v) (
      clicks-loaded_view format download_url role mc mr p bs,
      in_dialogs-loaded_view format download_url role mc mr p bs
          ∙ clicks-dialog_of p.intent (busy mc mr p) (mutation_error mc mr p),
    )
