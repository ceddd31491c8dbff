-- ===== src/Overview.antt =====
-- frontend/src/features/overview: the overview page, which starts backups and server actions.
pub mod Page
pub mod Data
pub mod Components
pub mod View
