-- ===== src/Client.antt =====
-- client/src/network/messageNet: the client's messages, their queue, and the codec of their frames.
pub mod Message
pub mod Queue
pub mod Types
pub mod Qt
pub mod Payload
pub mod Codec
pub mod Interop
pub mod Hub
pub mod Session
pub mod Window
pub mod Sending
