-- ===== src/Players.antt =====
-- frontend/src/features/players: names and reasons, the requests for player actions, the page, its
-- dialog and its rows.
pub mod Schema
pub mod Row
pub mod Page
pub mod View
pub mod Tests
