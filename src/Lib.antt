-- ===== src/Lib.antt =====
-- A model of the remote file system: a server that offers a directory over HTTP, and a client that
-- mounts it. A handler of the server takes a world, its disk and its transaction counter, to a
-- result and a world; what a handler changed before an error stays changed. The disk is an interface
-- (`FileSystem`), so what the theorems use of it is written out as laws, and a file system in memory
-- (Tests/Memory) has them. Header maps are an interface too.
--
-- Parts, each with the code it is about:
--   Base, Text      lists, maps, bytes, numerals and slash-separated paths as `std` has them
--   FileSystem      `std::fs`, `tokio::fs` and `libc` on Unix, as an interface with laws
--   Protocol        protocol/src/lib.rs: wire types and header names
--   Server.Http     the header maps and status codes of the `http` crate
--   Server.Error    server/src/error.rs: StorageError, from_io, into_response
--   Server.Auth     server/src/auth.rs: bearer_token_matches, require_authentication
--   Server.PathSecurity  server/src/path_security.rs: resolve_path, resolve_non_root_path,
--                   reject_link_components, sanitize_api_path, reject_internal_path
--   Server.Storage  AppState of server/src/lib.rs and the handlers' errors and state
--   Server.Metadata server/src/metadata.rs: entries for the wire, metadata headers
--   Server.Handlers, Server.WriteFile  server/src/handlers.rs; Server.WriteFile.Buffer has the loop of
--                   write_file, for a buffer of any size
--   Server.Transaction  server/src/transaction.rs: create_file_atomically
--   Client.Cache    client/src/cache.rs: TtlLruCache
--   Client.Journal  client/src/writeback/journal.rs: PendingFile, with its names (Names), the choice
--                   of a generation (Disk) and the operations on a pending file (Pending)
--   Client.Writeback  client/src/writeback.rs: Writeback; the spawned upload and those who wait for
--                   it are in Client.Writeback.Uploads
--   Client.RemotePath  client/src/remote_path.rs and client/src/ownership.rs
--   Client.Api      client/src/api.rs: URLs and headers (Url), requests (Calls), and the comparison of
--                   a remote file with a local one (Compare)
--   Client.Fuse     client/src/fuse.rs: attributes and error numbers (Attributes), tables (Tables),
--                   listings (Directories), removed and renamed paths (Renames), the start (Start);
--                   client/src/fuse/ops.rs: the callbacks (Ops); and their invariant (Inodes, Keeps,
--                   Invariant, Reachable)
--
-- Handlers call path security to resolve a path, metadata to apply and to read attributes, and
-- `write_file` hands create-only uploads to the transaction. A request body is the list of its
-- chunks, where a missing one is a failure to read on.
--
-- On the client, a callback of the kernel takes the state of the mount to a value or an error number
-- and a state (Base.Effect). The state of the mount holds that of the write-back, and this holds the
-- local disk and the state of the remote. Sending a request is a parameter (Transport), and so are
-- the reading of JSON and the codec of manifests. A pending file, which the source shares by `Arc`,
-- stands in a store under a number, so all who hold the number see its state.
--
-- Bounds: the transaction counter and the counter of journal entries wrap at 2 ^ 64; numerals are
-- bounded by u32 and u64 as parsed. `evict_lru` loops once for each entry at most, so the number of
-- entries is its fuel; printing a number n has n + 1 rounds, more than it has digits; the comparison
-- of files reads at least a byte in each round, so the local size is its fuel. Inodes and
-- handles, and the access counter of the cache, count up without a bound, where the source has u64;
-- what a time of modification above 2 ^ 63 seconds becomes as a time_t is written out. A piece that
-- the comparison asks for is of 4 MiB at most, so that its size fits the source's u32.
--
-- Not modelled: the server's listings, Windows branches and the Windows mount, locks (a handler, a
-- callback or an operation of the journal runs alone), the number of uploads that run at once, the
-- path of the journal's root, logging, the router and process start, the command line, and `init`
-- of the mount.
pub mod Base
pub mod Text
pub mod FileSystem
pub mod Protocol
pub mod Client
pub mod Server
pub mod Tests
