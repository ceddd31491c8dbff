-- ===== src/Dev.antt =====
-- frontend/dev.ts: the development server, which serves the page and passes `/api/` on to the API.
pub mod Proxy
pub mod Tunnel
