-- ===== src/Api/ServerPath.antt =====
-- lib/api/server-path.ts, and the addresses that the features build from identifiers.
pub mod Laws
pub mod Tests
use mathlib.Core.Option
use blockops.Prelude.{ℕ, Option, none, some, List, [], ◌∷◌, ◌++◌}
use blockops.Js.Text.{Text, codes}
use blockops.Js.Uri.{encode_uri_component}
use blockops.Api.Error.{ApiError, api_error, Caught, api, other}
use blockops.Api.Client.{Outcome, returned, thrown}

abbrev pub no_server : ApiError
unfolding api_error
no_server = api_error 0 (codes "no_server") (codes "BlockOps has no server selected.")

-- `encodeURIComponent`, which throws a `URIError` at a lone surrogate.
abbrev pub encoded : Option Text → Outcome Text
encoded none = thrown other
encoded (some t) = returned t

abbrev pub after : (Text → Text) → Outcome Text → Outcome Text
after f (returned t) = returned (f t)
after f (thrown e) = thrown e

-- the two steps of `serverPath` after its guard
abbrev pub under_server : Text → Text → Outcome Text
under_server server_id path =
    after (λ id. codes "/api/v1/servers/" ++ (id ++ path))
      (encoded (encode_uri_component server_id))

unfoldable pub server_path : Option Text → Text → Outcome Text
unfolding no_server
server_path none path = thrown (api no_server)
server_path (some []) path = thrown (api no_server)
server_path (some (c ∷ s)) path = under_server (c ∷ s) path

-- A path with an identifier in it, below a prefix and above a suffix.
abbrev pub with_id : Text → Text → Text → Outcome Text
with_id before id rest = after (λ t. before ++ (t ++ rest)) (encoded (encode_uri_component id))

abbrev pub and_then : (Text → Outcome Text) → Outcome Text → Outcome Text
and_then f (returned t) = f t
and_then f (thrown e) = thrown e

-- `backupDownloadUrl`, and the paths of `deleteBackup` and `restoreBackup`
unfoldable pub backup_path : Option Text → Text → Text → Outcome Text
unfolding server_path
backup_path server id rest = and_then (server_path server) (with_id (codes "/backups/") id rest)

abbrev pub backup_download_url : Option Text → Text → Outcome Text
backup_download_url server id = backup_path server id (codes "/download")

abbrev pub delete_backup_path : Option Text → Text → Outcome Text
delete_backup_path server id = backup_path server id []

abbrev pub restore_backup_path : Option Text → Text → Outcome Text
restore_backup_path server id = backup_path server id (codes "/restore")

-- The paths of `disableUser` and `revokeUserSessions`
unfoldable pub disable_user_path : Text → Outcome Text
disable_user_path id = with_id (codes "/api/v1/fleet/users/") id []

unfoldable pub revoke_user_sessions_path : Text → Outcome Text
revoke_user_sessions_path id = with_id (codes "/api/v1/fleet/users/") id (codes "/revoke-sessions")
