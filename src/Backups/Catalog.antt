-- ===== src/Backups/Catalog.antt =====
-- backup-schema.ts: a backup of the catalog, whose status is always "ready".
use blockops.Prelude.{ℕ}
use blockops.Js.Text.{Text}

pub record Backup : Type 0 where
  pub id : Text
  pub size_bytes : ℕ
  pub created_at : Text
  pub created_by : Text
