-- ===== src/Backups/View/Tests.antt =====
-- The backups page of an operator, rendered.
use blockops.Prelude.{
  ◌≡◌, refl, false, Option, none, some, List, [], ◌∷◌, ◌++◌, is_some, if◌then◌else◌,
}
use blockops.Js.Text.{Text, codes}
use blockops.Query.{QueryResult, Mutation}
use blockops.Query.Simple.{simple}
use blockops.Api.Error.{Caught}
use blockops.Auth.Permissions.{operator, has_permission}
use blockops.Ui.{clicks, in_dialogs, page_header}
use blockops.Backups.Catalog.{Backup}
use blockops.Backups.Page.{create, delete, Page, busy, initial_page, clicked}
use blockops.Backups.View.{Click, on_page, download, backups_page}
use blockops.Backups.View.Laws.{offered, catalog_clicks, dialog_clicks, backups_page-clicks}

abbrev creation : Mutation Unit Caught
creation = simple Unit Caught

abbrev removal : Mutation Text Caught
removal = simple Text Caught

abbrev listed : List Backup
listed =
    record {
      id = codes "b1";
      size_bytes = 1536;
      created_at = codes "2026-01-01T00:00:00Z";
      created_by = codes "alex";
    }
    ∷ []

abbrev answered : QueryResult (List Backup) Caught
answered = record { value = some listed; error = none; fetching = false }

abbrev no_format : Text → Option Text
no_format t = none

abbrev url : Text → Text
url id = codes "/backups/" ++ id

abbrev page : Page creation removal
page = initial_page creation removal

backups_page-clicks_example :
    let shown : List Click =
      if is_some page.intent then dialog_clicks (busy creation removal page) else [] in
    (clicks (backups_page no_format url operator creation removal page answered)
      ≡ offered operator create ++ (catalog_clicks no_format url operator listed ++ shown))
    × (in_dialogs (backups_page no_format url operator creation removal page answered) ≡ shown)
backups_page-clicks_example =
    backups_page-clicks no_format url operator creation removal page answered listed refl refl

-- An operator creates, downloads and deletes, and has no button that restores.
three_clicks :
    clicks (backups_page no_format url operator creation removal page answered)
    ≡ on_page (clicked create)
      ∷ download (codes "/backups/b1")
      ∷ on_page (clicked (delete (codes "b1")))
      ∷ []
unfolding clicks backups_page page_header has_permission busy
three_clicks = refl
