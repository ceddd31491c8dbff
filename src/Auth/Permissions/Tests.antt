-- ===== src/Auth/Permissions/Tests.antt =====
-- Permissions of the roles at concrete arguments.
use blockops.Prelude.{◌≡◌, true, refl}
use blockops.Auth.Permissions.{viewer, players_read, has_permission}

viewer_reads : has_permission viewer players_read ≡ true
unfolding has_permission
viewer_reads = refl
