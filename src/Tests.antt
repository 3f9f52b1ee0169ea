-- ===== src/Tests.antt =====
-- A file system in memory, and the theorems and definitions at concrete inputs.
pub mod Memory
pub mod Lawful
mod Examples
mod Requests
mod Writing
mod Caching
mod Changes
mod Mounting
mod Uploading
mod Refusals
