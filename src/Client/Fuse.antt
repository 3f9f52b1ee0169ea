-- ===== src/Client/Fuse.antt =====
-- `client/src/fuse.rs`: the state of the mount, the attributes that the kernel sees, and the error
-- numbers. The state of the write-back and of the remote stands in the state of the mount.
pub mod Attributes
pub mod Tables
pub mod Directories
pub mod Renames
pub mod Ops
pub mod Start
pub mod Inodes
pub mod Keeps
pub mod Invariant
pub mod Reachable
use remote_file_system_in_ru.Base.{ℕ, Bool, Option, none, some, List, Result}
use remote_file_system_in_ru.Base.Bytes.{Bytes}
use remote_file_system_in_ru.Base.Map.{Map}
use remote_file_system_in_ru.Base.Effect.{Effect}
use remote_file_system_in_ru.FileSystem.{FileSystem, SystemTime}
use remote_file_system_in_ru.Protocol.{DirectoryEntry}
use remote_file_system_in_ru.Client.Cache.{TtlLruCache}
use remote_file_system_in_ru.Client.Api.{Transport}
use remote_file_system_in_ru.Client.Writeback.{Settings, Writeback}

-- The error numbers of `libc` that the mount answers with.
pub data Errno : Type 0 where
  einval eacces enoent eexist eio enotempty ebusy enospc ebadf eisdir enotdir : Errno

pub data FileKind : Type 0 where
  directory regular_file : FileKind

-- `fuser::FileAttr`, with its four equal times as one.
pub record FileAttr : Type 0 where
  pub ino : ℕ
  pub size : ℕ
  pub blocks : ℕ
  pub modified_at : SystemTime
  pub kind : FileKind
  pub perm : ℕ
  pub nlink : ℕ
  pub uid : ℕ
  pub gid : ℕ
  pub rdev : ℕ
  pub flags : ℕ
  pub blksize : ℕ

pub record CachedAttr : Type 0 where
  pub attr : FileAttr
  pub refreshed_at : ℕ

pub data HandleKind : Type 0 where
  file_handle directory_handle : HandleKind

pub record OpenHandle : Type 0 where
  pub ino : ℕ
  pub path : Bytes
  pub kind : HandleKind
  pub dirty : Bool

-- The settings of the write-back, with the user who mounts.
pub record MountSettings : Type 0 where
  pub writeback : Settings
  pub uid : ℕ
  pub gid : ℕ

-- `clock` is the time of `Instant::now()`, which passes between the operations.
pub record RemoteFs (F : FileSystem) (T : Transport) : Type 0 where
  pub clock : ℕ
  pub inode_map : Map ℕ CachedAttr
  pub path_to_inode : Map Bytes ℕ
  pub next_inode : ℕ
  pub directory_cache : TtlLruCache Bytes (List DirectoryEntry)
  pub open_handles : Map ℕ OpenHandle
  pub next_handle : ℕ
  pub writeback : Writeback F T

abbrev pub Callback {ℓ} : FileSystem → Transport → Type ℓ → Type ℓ
Callback F T A = Effect (RemoteFs F T) Errno A

abbrev pub fuse_root_id : ℕ
fuse_root_id = 1

-- `OsStr::to_str`: a name that is not UTF-8 is none.
abbrev pub OsName : Type 0
OsName = Option Bytes

-- An `i64` offset of the kernel.
pub data FileOffset : Type 0 where
  negative : FileOffset
  at : ℕ → FileOffset

-- `fuser::TimeOrNow`.
pub data TimeOrNow : Type 0 where
  specific_time : SystemTime → TimeOrNow
  current_time : TimeOrNow
