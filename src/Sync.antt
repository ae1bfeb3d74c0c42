-- ===== src/Sync.antt =====
-- The synchronisation with the server (features/sync of the mobile app).
pub mod Timestamp
pub mod Records
pub mod Merge
pub mod Pull
pub mod Normalize
pub mod Payload
pub mod Push
pub mod Service
pub mod Hydrator
mod Examples
mod Tests
