-- ===== src/Settings.antt =====
-- frontend/src/features/settings: the address of RCON, and the users of the dashboard.
pub mod Schema
pub mod Users
pub mod NewUser
pub mod Integration
pub mod View
pub mod Tests
