-- ===== src/Meeting.antt =====
-- message_server/src/meeting and message_server/src/service: rooms, their manager and the service.
pub mod Room
pub mod World
pub mod Relay
pub mod Closing
pub mod Manager
pub mod Service
pub mod Consistent
