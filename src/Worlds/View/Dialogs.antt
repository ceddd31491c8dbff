-- ===== src/Worlds/View/Dialogs.antt =====
-- The open confirmation of the rendered worlds page.
use blockops.Prelude.{◌≡◌, Option, none, some, []}
use blockops.Js.Text.{Text}
use blockops.Query.{Mutation}
use blockops.Api.Error.{Caught}
use blockops.Auth.Permissions.{Role}
use blockops.Ui.{clicks, in_dialogs, notice, page_header}
use blockops.Ui.Dialogs.{covered, in_dialogs-confirm_dialog}
use blockops.Worlds.{File, Page}
use blockops.Worlds.View.{selected_file, upload, confirmation, page_with}

in_dialogs-selected_file : (o : Option File) → in_dialogs (selected_file o) ≡ []
unfolding selected_file
in_dialogs-selected_file none = simp covered
in_dialogs-selected_file (some f) = simp covered

module _ (m : Mutation File Caught) (role : Role) (p : Page m) where
  in_dialogs-upload : in_dialogs (upload m role p) ≡ []
  unfolding upload
  in_dialogs-upload = simp (covered, in_dialogs-selected_file)

  in_dialogs-confirmation : in_dialogs (confirmation m role p) ≡ clicks (confirmation m role p)
  unfolding confirmation
  in_dialogs-confirmation = in_dialogs-confirm_dialog _

  pub in_dialogs-page_with :
      (url : Text) → in_dialogs (page_with m role p url) ≡ clicks (confirmation m role p)
  unfolding page_with page_header notice
  in_dialogs-page_with url = simp (covered, in_dialogs-upload, in_dialogs-confirmation)
