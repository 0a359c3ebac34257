-- ===== src/Accounts.antt =====
-- data_server: the HTTP server of the accounts.
pub mod Model
pub mod Sqlite
pub mod Repository
pub mod Service
pub mod Json
pub mod Files
pub mod Http
