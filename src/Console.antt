-- ===== src/Console.antt =====
-- frontend/src/features/console: the console's lines, the socket that streams them, the command
-- form and the output pane.
pub mod Line
pub mod Lines
pub mod Schema
pub mod CommandForm
pub mod Output
pub mod Stream
pub mod Hook
pub mod Page
mod Tests
