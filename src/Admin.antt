-- ===== src/Admin.antt =====
-- The synchronisation of the admin frontend (lib/sync).
pub mod Queue
pub mod Collect
pub mod Pull
pub mod Apply
mod Tests
