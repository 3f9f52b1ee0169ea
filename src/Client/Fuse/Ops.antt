-- ===== src/Client/Fuse/Ops.antt =====
-- `client/src/fuse/ops.rs`: the callbacks of the kernel. A callback answers with a value or an error
-- number; what the kernel is told of times to live is left out.
pub mod Handles
pub mod Lookup
pub mod Contents
pub mod Entries
pub mod Offsets
