-- ===== src/Tests.antt =====
-- Concrete inputs at which the theorems apply.
mod FlatJson
mod Protocol
mod Network
mod Meeting
mod FlatQt
mod Client
mod Sending
mod Memory
mod Accounts
