-- ===== src/Connection/Signaling.antt =====
-- `WsSignalingAdapter` (adapters/ws-signaling-adapter.ts), the WebSocket to the signaling server.
pub mod Socket
pub mod Queue
pub mod Lifecycle
pub mod Delivery
pub mod Discarding
pub mod Bounded
pub mod Changes
pub mod Recovery
pub mod Closing
pub mod Attempts
mod Tests
