-- ===== src/Auth.antt =====
-- frontend/src/features/auth: who may do what, how a user signs in, and what the application shows
-- before and after that.
pub mod Permissions
pub mod Schemas
pub mod Form
pub mod Boundary
pub mod Session
pub mod Tests
