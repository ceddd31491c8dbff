-- ===== src/Auth/Permissions/Laws.antt =====
-- What the three roles may do.
use blockops.Prelude.{◌≡◌, ◌↔◌, ◌≤◌, ℕ, Bool, true, false, refl, arith}
use blockops.Auth.Permissions.{
  Role, administrator, operator, viewer, Permission, monitor_read, console_read, players_read,
  backups_read, backups_restore, world_replace, server_start, server_stop, audit_read, users_manage,
  settings_manage, has_permission,
}

-- How much a role is trusted.
abbrev pub rank : Role → ℕ
rank viewer = 0
rank operator = 1
rank administrator = 2

-- The permissions whose routes only read and that leave nothing on the caller's disk.
abbrev pub only_reads : Permission → Bool
only_reads monitor_read = true
only_reads console_read = true
only_reads players_read = true
only_reads backups_read = true
only_reads audit_read = true
only_reads _ = false

-- Losing the world, the lifecycle of the server, the evidence, the users or the secrets.
abbrev pub is_reserved : Permission → Bool
is_reserved backups_restore = true
is_reserved world_replace = true
is_reserved server_start = true
is_reserved server_stop = true
is_reserved audit_read = true
is_reserved users_manage = true
is_reserved settings_manage = true
is_reserved _ = false

operator_of_viewer :
    (p : Permission) → has_permission viewer p ≡ true → has_permission operator p ≡ true
unfolding has_permission
operator_of_viewer monitor_read h = refl
operator_of_viewer p h = ground arith

-- A role that is trusted at least as much as another holds every permission the other holds.
pub has_permission_mono :
    (r s : Role) (p : Permission)
    → rank r ≤ rank s
    → has_permission r p ≡ true
    → has_permission s p ≡ true
unfolding has_permission
has_permission_mono viewer operator p h q = operator_of_viewer p q
has_permission_mono r s p h q = ground arith

-- A viewer holds only permissions that read.
pub has_permission-viewer : (p : Permission) → has_permission viewer p ≡ true → only_reads p ≡ true
unfolding has_permission
has_permission-viewer monitor_read h = refl
has_permission-viewer p h = ground arith

-- An operator lacks exactly the reserved permissions: restoring and replacing a world, starting and
-- stopping the server, the audit log, the users and the settings.
pub has_permission-operator_iff :
    (p : Permission) → (has_permission operator p ≡ false) ↔ (is_reserved p ≡ true)
unfolding has_permission
has_permission-operator_iff monitor_read = ground arith
has_permission-operator_iff p = ground arith
