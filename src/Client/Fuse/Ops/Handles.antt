-- ===== src/Client/Fuse/Ops/Handles.antt =====
-- Opening and closing: `open`, `opendir`, `flush`, `fsync`, `release`, `releasedir`, `create` and
-- `destroy`.
use remote_file_system_in_ru.Base.{
  ℕ, Option, none, some, [], ◌==◌, Result, ok, err, ok_or, if◌then◌else◌,
}
use remote_file_system_in_ru.Base.Bytes.{Bytes, bytes_eq_instance}
use remote_file_system_in_ru.Base.Equality.{nat_eq}
use remote_file_system_in_ru.Base.Map
use remote_file_system_in_ru.Base.Effect.{
  match_option, match_result, Effect, ◌>>=◌, ◌>>◌, pure, fail, lift, ignore, attempt, map_error,
}
use remote_file_system_in_ru.FileSystem.{FileSystem}
use remote_file_system_in_ru.Client.Cache
use remote_file_system_in_ru.Client.Journal.{IoError, PendingFile}
use remote_file_system_in_ru.Client.Journal.Pending
use remote_file_system_in_ru.Client.Writeback
use remote_file_system_in_ru.Client.Api.{Transport}
use remote_file_system_in_ru.Client.Fuse.{
  Errno, enoent, eisdir, enotdir, ebadf, FileKind, directory, regular_file, FileAttr, HandleKind,
  file_handle, directory_handle, OpenHandle, RemoteFs, Callback, MountSettings, OsName,
}
use remote_file_system_in_ru.Client.Fuse.Attributes.{
  apply_umask, attr_of_pending, errno_from_io_error,
}
use remote_file_system_in_ru.Client.Fuse.Tables.{
  asks, modify, inode_path, child_path, allocate_inode, allocate_handle, handle_for, release_handle,
  has_open_file_handle, cache_attr, attr_for_inode,
}
use remote_file_system_in_ru.Client.Fuse.Directories.{
  on_writeback, invalidate_directory_cache_for_path,
}

-- A pending file that is not committed, with its number.
abbrev pub uncommitted : Option (ℕ × PendingFile) → Option (ℕ × PendingFile)
uncommitted none = none
uncommitted (some found) = if Pending.is_committed found.1 then none else some found

abbrev pub require_regular : FileKind → Result Errno (Unit {0})
require_regular directory = err eisdir
require_regular regular_file = ok tt

abbrev pub require_directory : FileKind → Result Errno (Unit {0})
require_directory directory = ok tt
require_directory regular_file = err enotdir

module _ {F : FileSystem} {T : Transport} where
  unfoldable pub pending_at : Bytes → RemoteFs F T → Option (ℕ × PendingFile)
  unfolding Writeback.get_pending
  pending_at path s = uncommitted (Writeback.get_pending path s.writeback)

  -- The kind of the inode decides, and then there must be a path for it.
  unfoldable pub open_as : HandleKind → (FileKind → Result Errno (Unit {0})) → ℕ → Callback F T ℕ
  unfolding attr_for_inode inode_path allocate_handle
  open_as kind require ino = do
    known ← asks (attr_for_inode ino)
    attr ← lift (ok_or known enoent)
    lift (require attr.kind)
    path ← inode_path ino
    allocate_handle ino path kind

  unfoldable pub open_file : ℕ → Callback F T ℕ
  unfolding open_as
  open_file ino = open_as file_handle require_regular ino

  unfoldable pub opendir : ℕ → Callback F T ℕ
  unfolding open_as
  opendir ino = open_as directory_handle require_directory ino

  unfoldable pub flush : ℕ → ℕ → Callback F T (Unit {0})
  unfolding handle_for
  flush ino fh = do handle_for fh ino file_handle; pure tt

  unfoldable pub fsync : ℕ → ℕ → Callback F T (Unit {0})
  unfolding handle_for
  fsync ino fh = do handle_for fh ino file_handle; pure tt

  -- A handle of another inode is put back.
  unfoldable pub put_back : ℕ → OpenHandle → Callback F T (Unit {0})
  unfolding Map.insert
  put_back fh handle s =
      (err ebadf, record s { open_handles = Map.insert fh handle s.open_handles })

  unfoldable pub releasedir : ℕ → ℕ → Callback F T (Unit {0})
  unfolding release_handle put_back
  releasedir ino fh = do
    handle ← release_handle fh directory_handle
    if handle.ino == ino then pure tt else put_back fh handle

  unfoldable pub destroy : RemoteFs F T → RemoteFs F T
  unfolding Cache.clear
  destroy s = record s { open_handles = []; directory_cache = Cache.clear s.directory_cache }

module _ (F : FileSystem) (T : Transport) (mount : MountSettings) where
  -- What `release` does for the pending file of a closed handle: a failure is logged.
  unfoldable pub queue_closed : Bytes → Callback F T (Unit {0})
  unfolding has_open_file_handle pending_at on_writeback Writeback.enqueue match_option
  queue_closed path = do
    still_open ← asks (has_open_file_handle path)
    pending ← asks (pending_at path)
    if still_open
        then pure tt
        else match_option pending (pure tt)
            (λ found. ignore (on_writeback (Writeback.enqueue F T mount.writeback found.0)))

  unfoldable pub release : ℕ → ℕ → Callback F T (Unit {0})
  unfolding release_handle put_back queue_closed
  release ino fh = do
    handle ← release_handle fh file_handle
    if handle.ino == ino then queue_closed handle.path else put_back fh handle

  unfoldable pub attr_from_pending : ℕ → ℕ → Effect (RemoteFs F T) IoError FileAttr
  unfolding on_writeback Writeback.on_entry Pending.metadata attr_of_pending
  attr_from_pending ino entry = do
    metadata ← on_writeback (Writeback.on_entry entry (Pending.metadata F))
    pure (attr_of_pending mount ino metadata)

  -- The journal entry without metadata is discarded again.
  unfoldable pub abandon : ℕ → IoError → Callback F T (FileAttr × ℕ)
  unfolding on_writeback Writeback.on_entry Writeback.discard Pending.of_pending errno_from_io_error
  abandon entry error = do
    ignore (do
      pending ← on_writeback (Writeback.on_entry entry (Pending.of_pending (λ p. p)))
      on_writeback (Writeback.discard F T mount.writeback entry pending))
    fail (errno_from_io_error error)

  unfoldable pub created : Bytes → FileAttr → Callback F T (FileAttr × ℕ)
  unfolding cache_attr invalidate_directory_cache_for_path allocate_handle
  created path attr = do
    modify (cache_attr path attr)
    modify (invalidate_directory_cache_for_path path)
    fh ← allocate_handle attr.ino path file_handle
    pure (attr, fh)

  -- `nanos` stands for the time of the clock that the name of the journal entry takes.
  unfoldable pub create : ℕ → ℕ → OsName → ℕ → ℕ → Callback F T (FileAttr × ℕ)
  unfolding child_path on_writeback Writeback.stage_new apply_umask allocate_inode attr_from_pending
      abandon created errno_from_io_error match_result
  create nanos parent name mode umask = do
    full_path ← child_path parent name
    entry ← map_error errno_from_io_error (
        on_writeback
          (Writeback.stage_new F T mount.writeback nanos full_path (apply_umask mode umask 0o644)))
    ino ← allocate_inode
    described ← attempt (attr_from_pending ino entry)
    match_result described (created full_path) (abandon entry)
