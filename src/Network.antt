-- ===== src/Network.antt =====
-- message_server/src/network: the byte buffer and the connection's send queue.
pub mod Buffer
pub mod Connection
