-- ===== src/Client/Fuse/Ops/Entries.antt =====
-- `mkdir`, `unlink`, `rmdir` and `rename`: the entries of a directory.
use mathlib.Core.Option
use remote_file_system_in_ru.Base.{
  ℕ, Bool, not, true, false, Option, List, [], ◌∷◌, ◌==◌, is_some, is_some_and, if◌then◌else◌,
}
use remote_file_system_in_ru.Base.Bytes.{Bytes, bytes_eq_instance}
use remote_file_system_in_ru.Base.Equality.{nat_eq}
use remote_file_system_in_ru.Base.Map
use remote_file_system_in_ru.Base.Effect.{
  match_option, match_result, ◌>>=◌, ◌>>◌, pure, fail, attempt, map_error,
}
use remote_file_system_in_ru.FileSystem.{FileSystem, ErrorKind}
use remote_file_system_in_ru.Client.Journal
use remote_file_system_in_ru.Client.Journal.{PendingFile}
use remote_file_system_in_ru.Client.Writeback
use remote_file_system_in_ru.Client.RemotePath
use remote_file_system_in_ru.Client.Api.{Transport}
use remote_file_system_in_ru.Client.Api.Calls
use remote_file_system_in_ru.Client.Fuse.{
  einval, eisdir, enotdir, enotempty, FileKind, directory, regular_file, FileAttr, RemoteFs,
  Callback, MountSettings, OsName,
}
use remote_file_system_in_ru.Client.Fuse.Attributes.{
  apply_umask, attr_from_remote_metadata, errno_from_rmdir_error, errno_from_io_error,
}
use remote_file_system_in_ru.Client.Fuse.Tables.{
  asks, modify, child_path, allocate_inode, cache_attr, attr_for_inode,
}
use remote_file_system_in_ru.Client.Fuse.Directories.{
  on_writeback, block_on, invalidate_directory_cache_for_path,
}
use remote_file_system_in_ru.Client.Fuse.Renames.{
  remove_cached_path, rename_cached_path, resolve_rename_source_path,
}
use remote_file_system_in_ru.Client.Fuse.Ops.Handles.{pending_at}
use remote_file_system_in_ru.Client.Fuse.Ops.Contents.{call_api, require_materialized}

abbrev pub is_empty {ℓ} : {A : Type ℓ} → List A → Bool
is_empty [] = true
is_empty (x ∷ xs) = false

abbrev pub is_directory_kind : FileKind → Bool
is_directory_kind directory = true
is_directory_kind regular_file = false

abbrev pub is_would_block : ErrorKind → Bool
is_would_block ErrorKind.would_block = true
is_would_block kind = false

module _ {F : FileSystem} {T : Transport} where
  -- The attributes that are known for a path, fresh or not.
  unfoldable pub known_attr : Bytes → RemoteFs F T → Option FileAttr
  unfolding attr_for_inode Map.lookup
  known_attr path s = Option.bind (Map.lookup path s.path_to_inode) (λ ino. attr_for_inode ino s)

module _ (F : FileSystem) (T : Transport) (mount : MountSettings) where
  unfoldable pub mkdir : ℕ → OsName → ℕ → ℕ → Callback F T FileAttr
  unfolding child_path call_api Calls.create_directory apply_umask allocate_inode
      attr_from_remote_metadata cache_attr invalidate_directory_cache_for_path
  mkdir parent name mode umask = do
    full_path ← child_path parent name
    metadata ← call_api F T mount (
        Calls.create_directory T mount.writeback.connection (RemotePath.api full_path)
          (apply_umask mode umask 0o755))
    new_ino ← allocate_inode
    modify (cache_attr full_path (attr_from_remote_metadata mount new_ino metadata))
    modify (invalidate_directory_cache_for_path full_path)
    pure (attr_from_remote_metadata mount new_ino metadata)

  unfoldable pub unlink_remote : Bytes → Callback F T (Unit {0})
  unfolding call_api Calls.delete_file remove_cached_path
  unlink_remote full_path = do
    call_api F T mount (Calls.delete_file T mount.writeback.connection (RemotePath.api full_path))
    modify (remove_cached_path full_path)

  -- A file that is being uploaded is deleted on the server when the upload is done.
  unfoldable pub unlink_pending : Bytes → ℕ × PendingFile → Callback F T (Unit {0})
  unfolding on_writeback Writeback.discard remove_cached_path require_materialized unlink_remote
      errno_from_io_error match_result
  unlink_pending full_path found = do
    discarded ← attempt (on_writeback (Writeback.discard F T mount.writeback found.0 found.1))
    match_result discarded (λ _. modify (remove_cached_path full_path))
        (λ error.
          if is_would_block (Journal.kind error)
          then (do require_materialized F T mount full_path; unlink_remote full_path)
          else fail (errno_from_io_error error))

  unfoldable pub unlink : ℕ → OsName → Callback F T (Unit {0})
  unfolding child_path known_attr pending_at unlink_pending unlink_remote match_option
  unlink parent name = do
    full_path ← child_path parent name
    known ← asks (known_attr full_path)
    if is_some_and known (λ attr. is_directory_kind attr.kind) then fail eisdir else (do
      pending ← asks (pending_at full_path)
      match_option pending (unlink_remote full_path) (unlink_pending full_path))

  unfoldable pub rmdir_remote : Bytes → Callback F T (Unit {0})
  unfolding block_on Calls.delete_directory remove_cached_path errno_from_rmdir_error
  rmdir_remote full_path = do
    map_error errno_from_rmdir_error
        (block_on (Calls.delete_directory T mount.writeback.connection (RemotePath.api full_path)))
    modify (remove_cached_path full_path)

  unfoldable pub rmdir : ℕ → OsName → Callback F T (Unit {0})
  unfolding child_path known_attr Writeback.entries_in_directory rmdir_remote
  rmdir parent name = do
    full_path ← child_path parent name
    known ← asks (known_attr full_path)
    if is_some_and known (λ attr. not (is_directory_kind attr.kind)) then fail enotdir else (do
      pending ← asks (λ s. Writeback.entries_in_directory full_path s.writeback)
      if is_empty pending then rmdir_remote full_path else fail enotempty)

  unfoldable pub rename_remote : Bytes → Bytes → Callback F T (Unit {0})
  unfolding call_api Calls.rename_file rename_cached_path
  rename_remote from_path to_path = do
    call_api F T mount (
        Calls.rename_file T mount.writeback.connection (RemotePath.api from_path)
          (RemotePath.api to_path) true)
    modify (rename_cached_path from_path to_path)

  unfoldable pub rename : ℕ → OsName → ℕ → OsName → ℕ → Callback F T (Unit {0})
  unfolding resolve_rename_source_path child_path pending_at require_materialized rename_remote
  rename parent name newparent newname flags =
      if flags == 0
      then (do
        from_path ← resolve_rename_source_path parent name newname
        to_path ← child_path newparent newname
        pending ← asks (pending_at from_path)
        if is_some pending then require_materialized F T mount from_path else pure tt
        rename_remote from_path to_path)
      else fail einval
