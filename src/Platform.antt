-- ===== src/Platform.antt =====
-- libs/platform: what every Go service of the repository is built on.
pub mod Types
pub mod Json
pub mod Tx
pub mod Names
pub mod Inbox
pub mod Moves
pub mod Commands
pub mod Outbox
pub mod Consumer
pub mod Http
pub mod Query
pub mod Runtime
pub mod Tests
