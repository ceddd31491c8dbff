-- ===== src/Api/ServerPath/Tests.antt =====
-- Addresses at concrete identifiers.
use blockops.Prelude.{◌≡◌, refl, some, ◌++◌, All}
use blockops.Js.Text.{Text, codes}
use blockops.Js.Uri.{encode_uri_component, IsSegmentUnit}
use blockops.Api.Client.{returned}
use blockops.Api.ServerPath.{backup_path}
use blockops.Api.ServerPath.Laws.{backup_path-segments}

abbrev address : Text
address = codes "/api/v1/servers/main/backups/..%2Fa%3Fb/download"

escapes : backup_path (some (codes "main")) (codes "../a?b") (codes "/download") ≡ returned address
unfolding backup_path encode_uri_component
escapes = refl

backup_path-segments_example :
    (server_id a b : Text) × (some (codes "main") ≡ some server_id)
    × (encode_uri_component server_id ≡ some a)
    × (encode_uri_component (codes "../a?b") ≡ some b)
    × All IsSegmentUnit a
    × All IsSegmentUnit b
    × (address ≡ codes "/api/v1/servers/" ++ (a ++ (codes "/backups/" ++ (b ++ codes "/download"))))
backup_path-segments_example =
    backup_path-segments (some (codes "main")) (codes "../a?b") (codes "/download") address escapes
