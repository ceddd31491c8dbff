-- ===== src/Api.antt =====
-- frontend/src/lib/api: requests, their errors, and the paths of the server that a session
-- addresses.
pub mod Error
pub mod Client
pub mod ServerPath
