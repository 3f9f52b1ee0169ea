-- ===== src/Client/Fuse/Invariant/Changes.antt =====
-- The callbacks that make, change and remove entries.
use remote_file_system_in_ru.Base.{
  ℕ, ◌==◌, Option, none, some, if◌then◌else◌, inl, inr, Bool-cases, Result-cases,
}
use remote_file_system_in_ru.Base.Bytes.{Bytes}
use remote_file_system_in_ru.Base.Effect.{◌>>=◌, ◌>>◌, pure, attempt, match_option, match_result}
use remote_file_system_in_ru.FileSystem.{FileSystem, SystemTime}
use remote_file_system_in_ru.Protocol.{RemoteMetadata}
use remote_file_system_in_ru.Client.Journal.{PendingFile}
use remote_file_system_in_ru.Client.Journal.Pending
use remote_file_system_in_ru.Client.Writeback
use remote_file_system_in_ru.Client.Api.{Transport, Call}
use remote_file_system_in_ru.Client.Fuse.{
  FileAttr, RemoteFs, MountSettings, OsName, FileOffset, negative, at, TimeOrNow, file_handle,
}
use remote_file_system_in_ru.Client.Fuse.Attributes.{
  attr_of_pending, create_file_attr, attr_from_remote_metadata,
}
use remote_file_system_in_ru.Client.Fuse.Tables.{
  asks, modify, allocate_inode, allocate_handle, cache_attr, mark_handle_dirty,
}
use remote_file_system_in_ru.Client.Fuse.Directories.{
  on_writeback, invalidate_directory_cache_for_path,
}
use remote_file_system_in_ru.Client.Fuse.Renames.{search_rename_source, resolve_rename_source_path}
use remote_file_system_in_ru.Client.Fuse.Inodes.{IsMount}
use remote_file_system_in_ru.Client.Fuse.Keeps.{
  Keeps, keeps_rules, Keeps-on_writeback, Owns, cache_attr-IsMount, allocate_inode-Owns,
  Keeps-allocate_handle, mark_handle_dirty-IsMount, invalidate_directory_cache_for_path-IsMount,
}
use remote_file_system_in_ru.Client.Fuse.Invariant.{
  inode_path-Keeps, child_path-Keeps, materialize_pending-Keeps,
}
use remote_file_system_in_ru.Client.Fuse.Invariant.Callbacks.{
  target_path-Keeps, attr_from_pending-Keeps, abandon-Keeps,
}
use remote_file_system_in_ru.Client.Fuse.Ops.Handles.{
  pending_at, attr_from_pending, abandon, created, create,
}
use remote_file_system_in_ru.Client.Fuse.Ops.Contents.{
  Resized, attr_changed, written, call_api, require_materialized, write_remote, write_pending,
  write, resize_remote, resize_pending, resize_step, update_step, reply_step, setattr, read_remote,
  read_pending, read,
}
use remote_file_system_in_ru.Client.Fuse.Ops.Lookup.{target_path}
use remote_file_system_in_ru.Client.Fuse.Ops.Entries.{
  mkdir, unlink_remote, unlink_pending, unlink, rmdir_remote, rmdir, rename_remote, rename,
}

module _ {F : FileSystem} {T : Transport} where
  attr_changed-Keeps :
      (ino : ℕ) (path : Bytes) (attr : FileAttr)
      → Keeps {F = F} {T = T} (attr_changed ino path attr)
  unfolding attr_changed
  attr_changed-Keeps ino path attr = search keeps_rules

  mark-IsMount :
      (fh : ℕ) (s : RemoteFs F T)
      → IsMount s
      → IsMount (if fh == 0 then s else mark_handle_dirty fh s)
  mark-IsMount fh s h = elim (Bool-cases (fh == 0)) [
    | inl no_handle ↦ rw no_handle h
    | inr handle ↦ rw handle (mark_handle_dirty-IsMount fh s h)
  ]

  written-Keeps :
      (ino fh : ℕ) (path contents : Bytes) (attr : FileAttr)
      → Keeps {F = F} {T = T} (written ino fh path contents attr)
  unfolding written
  written-Keeps ino fh path contents attr =
      search (keeps_rules, attr_changed-Keeps, mark-IsMount) depth 12

  search_rename_source-Keeps :
      (full_path : Bytes) (parent : ℕ) (name newname : OsName)
      → Keeps {F = F} {T = T} (search_rename_source full_path parent name newname)
  unfolding search_rename_source
  search_rename_source-Keeps full_path parent name newname =
      search (keeps_rules, inode_path-Keeps) depth 12

  resolve_rename_source_path-Keeps :
      (parent : ℕ) (name newname : OsName)
      → Keeps {F = F} {T = T} (resolve_rename_source_path parent name newname)
  unfolding resolve_rename_source_path
  resolve_rename_source_path-Keeps parent name newname =
      search (keeps_rules, child_path-Keeps, search_rename_source-Keeps) depth 12

module _ (F : FileSystem) (T : Transport) (mount : MountSettings) where
  created-IsMount :
      (path : Bytes) (attr : FileAttr) (s : RemoteFs F T)
      → IsMount s
      → Owns path attr.ino s
      → IsMount (created F T mount path attr s).1
  unfolding created ◌>>=◌ ◌>>◌ modify pure allocate_handle
  created-IsMount path attr s h owns =
      (Keeps-allocate_handle attr.ino path file_handle).kept _
        (invalidate_directory_cache_for_path-IsMount path _ (cache_attr-IsMount path attr s h owns))

  creation-Keeps :
      (path : Bytes) (entry : ℕ)
      → Keeps (do
        ino ← allocate_inode
        described ← attempt (attr_from_pending F T mount ino entry)
        match_result described (created F T mount path) (abandon F T mount entry))
  unfolding ◌>>=◌ attempt attr_from_pending on_writeback pure match_result allocate_inode
      attr_of_pending create_file_attr
  creation-Keeps path entry = record {
    kept = λ s h.
        let (fresh, owns) = allocate_inode-Owns path s h in
        let described =
          (Keeps-on_writeback (Writeback.on_entry entry (Pending.metadata F))).kept _ fresh in
        elim (Result-cases (Writeback.on_entry entry (Pending.metadata F) s.writeback).0) [
          | inl (metadata, e) ↦ rw e (created-IsMount path _ _ described owns)
          | inr (error, e) ↦ rw e ((abandon-Keeps F T mount entry error).kept _ described)
        ];
  }

  call_api-Keeps {ℓ} : {A : Type ℓ} (request : Call T A) → Keeps (call_api F T mount request)
  unfolding call_api
  call_api-Keeps request = search keeps_rules

  require_materialized-Keeps : (path : Bytes) → Keeps (require_materialized F T mount path)
  unfolding require_materialized
  require_materialized-Keeps path = search (keeps_rules, materialize_pending-Keeps)

  ruleset change_rules = (
    keeps_rules, call_api-Keeps, require_materialized-Keeps, attr_from_pending-Keeps,
    attr_changed-Keeps, written-Keeps,
  )

  write_remote-Keeps :
      (ino fh : ℕ) (path contents : Bytes) (offset : ℕ)
      → Keeps (write_remote F T mount ino fh path contents offset)
  unfolding write_remote
  write_remote-Keeps ino fh path contents offset = search change_rules depth 12

  write_pending-Keeps :
      (ino fh : ℕ) (path contents : Bytes) (offset entry : ℕ)
      → Keeps (write_pending F T mount ino fh path contents offset entry)
  unfolding write_pending
  write_pending-Keeps ino fh path contents offset entry =
      search (change_rules, write_remote-Keeps) depth 12

  pub create-Keeps :
      (nanos parent : ℕ) (name : OsName) (mode umask : ℕ)
      → Keeps (create F T mount nanos parent name mode umask)
  unfolding create
  create-Keeps nanos parent name mode umask = search (keeps_rules, child_path-Keeps, creation-Keeps)

  -- `write` of the callback, for an offset that is not negative.
  pub write-Keeps :
      (ino fh : ℕ) (offset : FileOffset) (contents : Bytes)
      → Keeps (write F T mount ino fh offset contents)
  unfolding write
  write-Keeps ino fh negative contents = record { kept = λ s h. h }
  write-Keeps ino fh (at offset) contents = record { kept = λ s h. rest.kept s h }
    where
      rest : Keeps (do
        path ← target_path file_handle ino fh
        pending ← asks (pending_at path)
        match_option pending
            (write_remote F T mount ino fh path contents offset)
            (λ found. write_pending F T mount ino fh path contents offset found.0))
      rest =
          search (keeps_rules, target_path-Keeps, write_remote-Keeps, write_pending-Keeps) depth 12

  resize_remote-Keeps : (path : Bytes) (size : ℕ) → Keeps (resize_remote F T mount path size)
  unfolding resize_remote
  resize_remote-Keeps path size = search change_rules

  resize_pending-Keeps :
      (path : Bytes) (size entry : ℕ) → Keeps (resize_pending F T mount path size entry)
  unfolding resize_pending
  resize_pending-Keeps path size entry = search (change_rules, resize_remote-Keeps) depth 12

  resize_step-Keeps : (path : Bytes) (size : Option ℕ) → Keeps (resize_step F T mount path size)
  unfolding resize_step
  resize_step-Keeps path none = search change_rules
  resize_step-Keeps path (some size) =
      search (change_rules, resize_remote-Keeps, resize_pending-Keeps) depth 12

  update_step-Keeps :
      (path : Bytes) (mode uid gid : Option ℕ) (modified_at : Option SystemTime) (resized : Resized)
      → Keeps (update_step F T mount path mode uid gid modified_at resized)
  unfolding update_step
  update_step-Keeps path mode uid gid modified_at resized = search change_rules depth 12

  reply_step-Keeps :
      (ino : ℕ) (path : Bytes) (resized : Resized) → Keeps (reply_step F T mount ino path resized)
  unfolding reply_step
  reply_step-Keeps ino path (Resized.on_server metadata) = search change_rules
  reply_step-Keeps ino path Resized.in_journal = search change_rules depth 12
  reply_step-Keeps ino path Resized.unchanged = search change_rules

  pub setattr-Keeps :
      (now : SystemTime) (ino : ℕ) (mode uid gid size : Option ℕ) (mtime : Option TimeOrNow)
      → Keeps (setattr F T mount now ino mode uid gid size mtime)
  unfolding setattr
  setattr-Keeps now ino mode uid gid size mtime =
      search (keeps_rules, inode_path-Keeps, resize_step-Keeps, update_step-Keeps, reply_step-Keeps)
        depth 12

  read_remote-Keeps :
      (path : Bytes) (offset size : ℕ) → Keeps (read_remote F T mount path offset size)
  unfolding read_remote
  read_remote-Keeps path offset size = search change_rules

  read_pending-Keeps :
      (path : Bytes) (offset size entry : ℕ) → Keeps (read_pending F T mount path offset size entry)
  unfolding read_pending
  read_pending-Keeps path offset size entry = search (change_rules, read_remote-Keeps) depth 12

  pub read-Keeps :
      (ino fh : ℕ) (offset : FileOffset) (size : ℕ) → Keeps (read F T mount ino fh offset size)
  unfolding read
  read-Keeps ino fh negative size = record { kept = λ s h. h }
  read-Keeps ino fh (at offset) size = record { kept = λ s h. rest.kept s h }
    where
      rest : Keeps (do
        path ← target_path file_handle ino fh
        pending ← asks (pending_at path)
        match_option pending
            (read_remote F T mount path offset size)
            (λ found. read_pending F T mount path offset size found.0))
      rest = search (keeps_rules, target_path-Keeps, read_remote-Keeps, read_pending-Keeps) depth 12

  -- A new directory gets a new number.
  mkdir_tail-Keeps :
      (path : Bytes) (metadata : RemoteMetadata)
      → Keeps {F = F} {T = T} (do
        new_ino ← allocate_inode
        modify (cache_attr path (attr_from_remote_metadata mount new_ino metadata))
        modify (invalidate_directory_cache_for_path path)
        pure (attr_from_remote_metadata mount new_ino metadata))
  unfolding ◌>>=◌ ◌>>◌ modify pure allocate_inode attr_from_remote_metadata create_file_attr
  mkdir_tail-Keeps path metadata = record {
    kept = λ s h.
        let (fresh, owns) = allocate_inode-Owns path s h in
        invalidate_directory_cache_for_path-IsMount path _ (cache_attr-IsMount path _ _ fresh owns);
  }

  pub mkdir-Keeps :
      (parent : ℕ) (name : OsName) (mode umask : ℕ) → Keeps (mkdir F T mount parent name mode umask)
  unfolding mkdir
  mkdir-Keeps parent name mode umask = search (change_rules, child_path-Keeps, mkdir_tail-Keeps)

  unlink_remote-Keeps : (path : Bytes) → Keeps (unlink_remote F T mount path)
  unfolding unlink_remote
  unlink_remote-Keeps path = search change_rules

  unlink_pending-Keeps :
      (path : Bytes) (found : ℕ × PendingFile) → Keeps (unlink_pending F T mount path found)
  unfolding unlink_pending
  unlink_pending-Keeps path found = search (change_rules, unlink_remote-Keeps) depth 12

  pub unlink-Keeps : (parent : ℕ) (name : OsName) → Keeps (unlink F T mount parent name)
  unfolding unlink
  unlink-Keeps parent name =
      search (change_rules, child_path-Keeps, unlink_remote-Keeps, unlink_pending-Keeps) depth 12

  rmdir_remote-Keeps : (path : Bytes) → Keeps (rmdir_remote F T mount path)
  unfolding rmdir_remote
  rmdir_remote-Keeps path = search change_rules

  pub rmdir-Keeps : (parent : ℕ) (name : OsName) → Keeps (rmdir F T mount parent name)
  unfolding rmdir
  rmdir-Keeps parent name = search (change_rules, child_path-Keeps, rmdir_remote-Keeps) depth 12

  rename_remote-Keeps : (from to : Bytes) → Keeps (rename_remote F T mount from to)
  unfolding rename_remote
  rename_remote-Keeps from to = search change_rules

  pub rename-Keeps :
      (parent : ℕ) (name : OsName) (newparent : ℕ) (newname : OsName) (flags : ℕ)
      → Keeps (rename F T mount parent name newparent newname flags)
  unfolding rename
  rename-Keeps parent name newparent newname flags =
      search (change_rules, child_path-Keeps, resolve_rename_source_path-Keeps, rename_remote-Keeps)
        depth 12
