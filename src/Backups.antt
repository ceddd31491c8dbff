-- ===== src/Backups.antt =====
-- frontend/src/features/backups: the page that creates, deletes and restores backups.
pub mod Catalog
pub mod Page
pub mod View
