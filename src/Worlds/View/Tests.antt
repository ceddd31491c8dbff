-- ===== src/Worlds/View/Tests.antt =====
-- The rendered page at a concrete state.
use blockops.Prelude.{◌≡◌, refl, true, some, [], if◌then◌else◌}
use blockops.Js.Text.{Text, codes}
use blockops.Query.{Mutation}
use blockops.Query.Simple.{simple}
use blockops.Api.Error.{Caught}
use blockops.Js.Uri.{encode_uri_component}
use blockops.Api.Client.{returned}
use blockops.Api.ServerPath.{server_path}
use blockops.Auth.Permissions.{administrator}
use blockops.Ui.{clicks, in_dialogs}
use blockops.Worlds.{File, Page, initial_page}
use blockops.Worlds.View.{world_download_url, page_with, worlds_page}
use blockops.Worlds.View.Laws.{page_clicks, dialog_clicks, worlds_page-clicks}

abbrev mutation : Mutation File Caught
mutation = simple File Caught

-- A file is selected and the confirmation is open.
abbrev asking : Page mutation
asking = record (initial_page mutation) {
  file = some (record { size = 10; name = codes "world.zip"; type_ = [] });
  confirm_open = true;
}

abbrev address : Text
address = codes "/api/v1/servers/local/world/download"

rendered :
    worlds_page mutation administrator asking (some (codes "local"))
    ≡ returned (page_with mutation administrator asking address)
unfolding worlds_page world_download_url server_path encode_uri_component
rendered = refl

worlds_page-clicks_example :
    (url : Text) × (world_download_url (some (codes "local")) ≡ returned url)
    × (clicks (page_with mutation administrator asking address)
        ≡ page_clicks mutation administrator asking url)
    × (in_dialogs (page_with mutation administrator asking address)
        ≡ (if asking.confirm_open then dialog_clicks mutation administrator asking else []))
worlds_page-clicks_example =
    worlds_page-clicks mutation administrator asking (some (codes "local"))
      (page_with mutation administrator asking address) rendered
