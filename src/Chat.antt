-- ===== src/Chat.antt =====
-- Messages between peers (features/chat of the mobile app).
pub mod ReceiptManager
pub mod Statuses
pub mod Receive
pub mod AckTracker
