-- ===== src/Server.antt =====
-- The server: `server/src`.
pub mod Http
pub mod Error
pub mod Auth
pub mod PathSecurity
pub mod Storage
pub mod Metadata
pub mod Handlers
pub mod Transaction
pub mod WriteFile
