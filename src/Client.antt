-- ===== src/Client.antt =====
-- The client: `client/src`.
pub mod Cache
pub mod Journal
pub mod RemotePath
pub mod Api
pub mod Writeback
pub mod Fuse
