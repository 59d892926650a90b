-- ===== src/Session.antt =====
-- mysql/src/lib.rs: the session of a client after authentication, `AsyncMysqlIntermediary::run`.
pub mod Table
pub mod Backend
pub mod Run
pub mod Packets
pub mod Connection
pub mod Login
