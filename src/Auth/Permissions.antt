-- ===== src/Auth/Permissions.antt =====
-- permissions.ts: which dashboard role holds which permission.
pub mod Laws
pub mod Tests
use blockops.Prelude.{Bool, true, false, List, [], ◌∷◌, any}

pub data Role : Type 0 where
  administrator operator viewer : Role

pub data Permission : Type 0 where
  monitor_read console_read console_execute players_read players_manage : Permission
  backups_read backups_create backups_delete backups_download backups_restore : Permission
  world_download world_replace server_start server_stop server_restart : Permission
  audit_read users_manage settings_manage : Permission

pub Permission-discrete : Discrete Permission
Permission-discrete = hlevel

operator_permissions : List Permission
operator_permissions =
    monitor_read ∷ console_read ∷ console_execute ∷ players_read ∷ players_manage ∷ backups_read
    ∷ backups_create ∷ backups_delete ∷ backups_download ∷ world_download ∷ server_restart ∷ []

viewer_permissions : List Permission
viewer_permissions = monitor_read ∷ console_read ∷ players_read ∷ backups_read ∷ []

-- `Set.has`
has : List Permission → Permission → Bool
unfolding Permission-discrete
has granted p = any (λ q. elim (Permission-discrete q p) [ yes _ ↦ true | no _ ↦ false ]) granted

unfoldable pub has_permission : Role → Permission → Bool
unfolding has operator_permissions viewer_permissions
has_permission administrator p = true
has_permission operator p = has operator_permissions p
has_permission viewer p = has viewer_permissions p
