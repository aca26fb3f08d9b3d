-- ===== src/Store.antt =====
-- internal/store: the tables of the database and the repositories over them.
pub mod Accounts
pub mod Cooldowns
pub mod Responses
pub mod ModelCapabilities
pub mod ApiKeys
pub mod AdminSessions
