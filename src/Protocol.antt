-- ===== src/Protocol.antt =====
-- message_server/include/protocol and message_server/src/protocol: packets and their wire format.
pub mod MessageType
pub mod Json
pub mod Codec
