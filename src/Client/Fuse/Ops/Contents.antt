-- ===== src/Client/Fuse/Ops/Contents.antt =====
-- `write`, `setattr` and `read`: a file whose upload has not succeeded is changed in its journal,
-- any other on the server.
use mathlib.Core.Option
use remote_file_system_in_ru.Base.{
  ℕ, ◌%◌, ◌^◌, Bool, ◌||◌, true, false, Option, none, some, ◌==◌, length, is_some, err, ok_or,
  if◌then◌else◌,
}
use remote_file_system_in_ru.Base.Bytes.{Bytes}
use remote_file_system_in_ru.Base.Effect.{
  match_option, match_result, ◌>>=◌, ◌>>◌, pure, fail, lift, attempt, map_error,
}
use remote_file_system_in_ru.FileSystem.{FileSystem, ErrorKind, SystemTime}
use remote_file_system_in_ru.Protocol.{RemoteMetadata}
use remote_file_system_in_ru.Client.Journal
use remote_file_system_in_ru.Client.Journal.{IoError, PendingFile}
use remote_file_system_in_ru.Client.Journal.Pending
use remote_file_system_in_ru.Client.Writeback
use remote_file_system_in_ru.Client.RemotePath
use remote_file_system_in_ru.Client.Api.{Transport, Call}
use remote_file_system_in_ru.Client.Api.Calls
use remote_file_system_in_ru.Client.Fuse.{
  enoent, einval, eio, FileAttr, file_handle, Callback, MountSettings, FileOffset, negative, at,
  TimeOrNow,
}
use remote_file_system_in_ru.Client.Fuse.Attributes.{
  attr_from_remote_metadata, errno_from_api_error, errno_from_io_error, time_or_now,
}
use remote_file_system_in_ru.Client.Fuse.Tables.{
  asks, modify, inode_path, attr_for_inode, update_cached_attr, mark_handle_dirty,
}
use remote_file_system_in_ru.Client.Fuse.Directories.{
  on_writeback, block_on, materialize_pending, invalidate_directory_cache_for_path,
}
use remote_file_system_in_ru.Client.Fuse.Ops.Handles.{pending_at, attr_from_pending}
use remote_file_system_in_ru.Client.Fuse.Ops.Lookup.{target_path}

-- `matches!(error.kind(), …)`.
abbrev pub is_not_writable : ErrorKind → Bool
is_not_writable ErrorKind.would_block = true
is_not_writable ErrorKind.already_exists = true
is_not_writable kind = false

abbrev pub is_not_readable : ErrorKind → Bool
is_not_readable ErrorKind.not_found = true
is_not_readable ErrorKind.already_exists = true
is_not_readable kind = false

-- What a resize leaves for the reply of `setattr`.
pub data Resized : Type 0 where
  unchanged in_journal : Resized
  on_server : RemoteMetadata → Resized

module _ {F : FileSystem} {T : Transport} where
  -- New attributes of an inode, and the listing of its directory is out of date.
  unfoldable pub attr_changed : ℕ → Bytes → FileAttr → Callback F T (Unit {0})
  unfolding update_cached_attr invalidate_directory_cache_for_path
  attr_changed ino path attr = do
    modify (update_cached_attr ino attr)
    modify (invalidate_directory_cache_for_path path)

  unfoldable pub written : ℕ → ℕ → Bytes → Bytes → FileAttr → Callback F T ℕ
  unfolding attr_changed mark_handle_dirty
  written ino fh path contents attr = do
    attr_changed ino path attr
    modify (λ s. if fh == 0 then s else mark_handle_dirty fh s)
    pure (length contents % 2 ^ 32)

module _ (F : FileSystem) (T : Transport) (mount : MountSettings) where
  -- A call of the API, with its error as an error number.
  unfoldable pub call_api {ℓ} : {A : Type ℓ} → Call T A → Callback F T A
  unfolding block_on errno_from_api_error
  call_api request = map_error errno_from_api_error (block_on request)

  -- `if let Err(error) = self.materialize_pending(…)`.
  unfoldable pub require_materialized : Bytes → Callback F T (Unit {0})
  unfolding materialize_pending errno_from_io_error
  require_materialized path = do
    map_error errno_from_io_error (materialize_pending F T mount path)
    pure tt

  unfoldable pub write_remote : ℕ → ℕ → Bytes → Bytes → ℕ → Callback F T ℕ
  unfolding call_api Calls.write_file attr_from_remote_metadata written
  write_remote ino fh path contents offset = do
    metadata ←
        call_api
          (Calls.write_file T mount.writeback.connection (RemotePath.api path) contents offset)
    written ino fh path contents (attr_from_remote_metadata mount ino metadata)

  -- A file that is being uploaded, or has been, is written on the server when the upload is done.
  unfoldable pub write_pending : ℕ → ℕ → Bytes → Bytes → ℕ → ℕ → Callback F T ℕ
  unfolding on_writeback Writeback.on_entry Pending.write_at attr_from_pending written
      require_materialized write_remote errno_from_io_error match_result
  write_pending ino fh path contents offset entry = do
    wrote ← attempt (on_writeback (Writeback.on_entry entry (Pending.write_at F contents offset)))
    match_result wrote
        (λ _. do
          attr ← map_error errno_from_io_error (attr_from_pending F T mount ino entry)
          written ino fh path contents attr)
        (λ error.
          if is_not_writable (Journal.kind error)
          then (do require_materialized path; write_remote ino fh path contents offset)
          else fail (errno_from_io_error error))

  unfoldable pub write : ℕ → ℕ → FileOffset → Bytes → Callback F T ℕ
  unfolding target_path pending_at write_pending write_remote match_option
  write ino fh negative contents s = (err einval, s)
  write ino fh (at offset) contents s =
      (do
        path ← target_path file_handle ino fh
        pending ← asks (pending_at path)
        match_option pending (write_remote ino fh path contents offset)
            (λ found. write_pending ino fh path contents offset found.0))
        s

  unfoldable pub resize_remote : Bytes → ℕ → Callback F T Resized
  unfolding call_api Calls.resize_file
  resize_remote path size = do
    metadata ← call_api (Calls.resize_file T mount.writeback.connection (RemotePath.api path) size)
    pure (Resized.on_server metadata)

  unfoldable pub resize_pending : Bytes → ℕ → ℕ → Callback F T Resized
  unfolding on_writeback Writeback.on_entry Pending.resize require_materialized resize_remote
      errno_from_io_error match_result
  resize_pending path size entry = do
    resized ← attempt (on_writeback (Writeback.on_entry entry (Pending.resize F size)))
    match_result resized (λ _. pure Resized.in_journal)
        (λ error.
          if is_not_writable (Journal.kind error)
          then (do require_materialized path; resize_remote path size)
          else fail (errno_from_io_error error))

  unfoldable pub resize_step : Bytes → Option ℕ → Callback F T Resized
  unfolding pending_at resize_pending resize_remote match_option
  resize_step path none = pure Resized.unchanged
  resize_step path (some size) = do
    pending ← asks (pending_at path)
    match_option pending (resize_remote path size) (λ found. resize_pending path size found.0)

  -- The mode, the owners and the time change on the server, behind the upload of a pending file.
  unfoldable pub update_step :
      Bytes → Option ℕ → Option ℕ → Option ℕ → Option SystemTime → Resized → Callback F T Resized
  unfolding pending_at require_materialized call_api Calls.update_metadata
  update_step path mode uid gid modified_at resized =
      if is_some mode || is_some uid || is_some gid || is_some modified_at
      then (do
        pending ← asks (pending_at path)
        if is_some pending then require_materialized path else pure tt
        metadata ← call_api (
            Calls.update_metadata T mount.writeback.connection (RemotePath.api path)
              (Option.map (λ m. m % 4096) mode) uid gid modified_at)
        pure (Resized.on_server metadata))
      else pure resized

  unfoldable pub reply_step : ℕ → Bytes → Resized → Callback F T FileAttr
  unfolding attr_changed attr_from_remote_metadata attr_from_pending attr_for_inode Writeback.get
      errno_from_io_error
  reply_step ino path (Resized.on_server metadata) = do
    attr_changed ino path (attr_from_remote_metadata mount ino metadata)
    pure (attr_from_remote_metadata mount ino metadata)
  reply_step ino path Resized.in_journal = do
    pending ← asks (λ s. Writeback.get path s.writeback)
    entry ← lift (ok_or pending eio)
    attr ← map_error errno_from_io_error (attr_from_pending F T mount ino entry)
    attr_changed ino path attr
    pure attr
  reply_step ino path Resized.unchanged = do
    cached ← asks (attr_for_inode ino)
    lift (ok_or cached enoent)

  unfoldable pub setattr :
      SystemTime
      → ℕ
      → Option ℕ
      → Option ℕ
      → Option ℕ
      → Option ℕ
      → Option TimeOrNow
      → Callback F T FileAttr
  unfolding inode_path resize_step update_step reply_step time_or_now
  setattr now ino mode uid gid size mtime = do
    path ← inode_path ino
    resized ← resize_step path size
    updated ← update_step path mode uid gid (Option.map (time_or_now now) mtime) resized
    reply_step ino path updated

  unfoldable pub read_remote : Bytes → ℕ → ℕ → Callback F T Bytes
  unfolding call_api Calls.read_file
  read_remote path offset size =
      call_api (Calls.read_file T mount.writeback.connection (RemotePath.api path) offset size)

  unfoldable pub read_pending : Bytes → ℕ → ℕ → ℕ → Callback F T Bytes
  unfolding on_writeback Writeback.on_entry Pending.read_at read_remote errno_from_io_error
      match_result
  read_pending path offset size entry = do
    bytes ← attempt (on_writeback (Writeback.on_entry entry (Pending.read_at F size offset)))
    match_result bytes pure (λ error.
        if is_not_readable (Journal.kind error)
        then read_remote path offset size
        else fail (errno_from_io_error error))

  unfoldable pub read : ℕ → ℕ → FileOffset → ℕ → Callback F T Bytes
  unfolding target_path pending_at read_pending read_remote match_option
  read ino fh negative size s = (err einval, s)
  read ino fh (at offset) size s =
      (do
        path ← target_path file_handle ino fh
        pending ← asks (pending_at path)
        match_option pending (read_remote path offset size)
            (λ found. read_pending path offset size found.0))
        s
