-- ===== src/Worlds/View.antt =====
-- features/worlds: what worlds-page.tsx renders, and the address of worldDownloadUrl.
--
-- Without a server `worldDownloadUrl` throws while the page renders, and there is no page.
pub mod Laws
pub mod Dialogs
mod Tests
use blockops.Prelude.{
  Bool, true, false, not, ◌&&◌, Option, none, some, List, [], ◌∷◌, is_some, if◌then◌else◌,
}
use blockops.Js.Text.{Text, codes}
use blockops.Formatters.{format_bytes}
use blockops.Query.{is_pending, is_error, is_success, Mutation}
use blockops.Api.Error.{Caught, safe_error_message}
use blockops.Api.Client.{Outcome, returned, thrown}
use blockops.Api.ServerPath.{server_path}
use blockops.Auth.Permissions.{Role, world_replace, has_permission}
use blockops.Ui.{
  View, nothing, words, heading, button, link, input, ghost, destructive, views, shown_if, text_if,
  danger, success, info, notice, page_header, confirm_dialog,
}
use blockops.Worlds.{File, Page, WorldsEvent, removed, opened, closed, confirmed}

pub data Click : Type 0 where
  on_page : WorldsEvent Caught → Click
  download : Text → Click

unfoldable pub world_download_url : Option Text → Outcome Text
world_download_url server = server_path server (codes "/world/download")

abbrev pub name_of : Option File → Text
name_of none = []
name_of (some file) = file.name

-- The selected file with the button that removes it.
unfoldable pub selected_file : Option File → View Click
selected_file none = nothing
selected_file (some file) = views (
    words file.name
    ∷ words (format_bytes (some file.size))
    ∷ button ghost (codes "Remove selected file") true (on_page removed)
    ∷ [])

module _ (m : Mutation File Caught) (role : Role) (p : Page m) where
  abbrev pub busy : Bool
  busy = is_pending (m.status p.replace)

  unfoldable pub upload : View Click
  upload = views (
      words (codes "Choose a world ZIP")
      ∷ words (codes "Compressed ZIP only; the server limit is enforced during upload.")
      ∷ input (name_of p.file)
      ∷ text_if (λ t. notice danger (words t)) p.file_error
      ∷ selected_file p.file
      ∷ button destructive (codes "Replace current world") (is_some p.file && not busy)
          (on_page opened)
      ∷ [])

  unfoldable pub confirmation : View Click
  confirmation = confirm_dialog (record {
    is_open = p.confirm_open;
    title = codes "Replace the current world?";
    description =
        codes
          "BlockOps will stop the configured Minecraft container, move the existing worlds into a temporary rollback directory, install this ZIP, and start the server. Players will be disconnected.";
    confirm_label = codes "Replace world";
    dangerous = true;
    busy = busy;
    error = nothing;
    on_confirm = on_page confirmed;
    on_close = on_page closed;
  })

  abbrev error_text : Option Caught → Text
  error_text none = codes "Something went wrong."
  error_text (some e) = safe_error_message e

  -- The page with the address of the download.
  unfoldable pub page_with : Text → View Click
  page_with url = views (
      page_header (some (codes "Controlled world data")) (codes "Worlds")
        (codes
          "Export a consistent archive or stage a validated ZIP replacement. This is intentionally not a general file manager.")
        nothing
      ∷ shown_if (is_error (m.status p.replace))
          (notice danger (words (error_text (m.error p.replace))))
      ∷ shown_if (is_success (m.status p.replace)) (
          notice success
            (words (codes "World replacement completed and the configured server was started.")))
      ∷ words (codes "Consistent export")
      ∷ heading (codes "Download current world")
      ∷ words (
          codes
            "BlockOps disables saves, flushes the world, archives the primary and dimension directories, then re-enables saves. A stopped server is archived directly.")
      ∷ link (codes "Prepare download") (download url)
      ∷ words (codes "Administrator only")
      ∷ heading (codes "Replace world from ZIP")
      ∷ words (
          codes
            "The ZIP must contain exactly one level.dat. Paths, links, expanded size, staging, rollback, and container restart are validated server-side.")
      ∷ (if has_permission role world_replace
          then upload
          else notice info (words (codes "Only administrators can upload or replace world data.")))
      ∷ confirmation
      ∷ [])

  unfoldable pub worlds_page : Option Text → Outcome (View Click)
  worlds_page server = elim (world_download_url server) [
    | thrown e ↦ thrown e
    | returned url ↦ returned (page_with url)
  ]
