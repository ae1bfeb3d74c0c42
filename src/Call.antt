-- ===== src/Call.antt =====
-- Calls (features/call of the mobile app).
pub mod Audio
pub mod Store
pub mod Service
