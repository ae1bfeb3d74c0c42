-- ===== src/Connection.antt =====
-- Connections between peers (features/shared/connection of the mobile app).
pub mod IceRestart
pub mod Liveness
pub mod CallRouting
pub mod Connecting
pub mod Parsing
pub mod Planning
pub mod Signaling
mod Tests
