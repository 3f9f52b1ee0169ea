-- ===== src/Client/Fuse/Invariant.antt =====
-- Every callback of the kernel keeps the tables of the mount in order.
pub mod Callbacks
pub mod Changes
use mathlib.Core.Option
use remote_file_system_in_ru.Base.{
  ℕ, ◌+◌, ◌≤◌, ◌<◌, ◌≡◌, ◌≢◌, refl, sym, ap, ◌∙◌, Bool, true, false, not, ◌||◌, Option, none, some,
  List, [], ◌∷◌, ◌++◌, ltb, ◌==◌, arith, if◌then◌else◌, inl, inr, Bool-cases, Option-cases, Result,
  ok, err, Result-cases, is_some, is_some_and,
}
use remote_file_system_in_ru.Base.Bytes.{Bytes, codes, bytes_eq, bytes_eq_instance}
use remote_file_system_in_ru.Base.Equality.{nat_eq}
use remote_file_system_in_ru.Base.Map
use remote_file_system_in_ru.Base.Effect.{
  Effect, continue, ◌>>=◌, ◌>>◌, pure, fail, lift, ignore, attempt, map_error,
}
use remote_file_system_in_ru.FileSystem.{FileSystem}
use remote_file_system_in_ru.Protocol.{DirectoryEntry}
use remote_file_system_in_ru.Client.Journal.{IoError, PendingFile}
use remote_file_system_in_ru.Client.Journal.Pending
use remote_file_system_in_ru.Client.Cache
use remote_file_system_in_ru.Client.Api.{Transport}
use remote_file_system_in_ru.Client.Writeback
use remote_file_system_in_ru.Client.Fuse.{
  Errno, FileAttr, HandleKind, file_handle, directory_handle, OpenHandle, RemoteFs, Callback,
  MountSettings, OsName, FileOffset, negative, at,
}
use remote_file_system_in_ru.Client.Fuse.Attributes.{
  attr_from_directory_entry, create_file_attr, errno_from_io_error,
}
use remote_file_system_in_ru.Client.Fuse.Tables.{
  asks, modify, inode_path, child_path, allocate_inode, allocate_handle, handle_for, release_handle,
  mark_handle_dirty, cache_attr, update_cached_attr, attr_for_inode, fresh_attr_for_inode,
  path_for_inode,
}
use remote_file_system_in_ru.Client.Fuse.Directories.{
  on_writeback, block_on, flush_pending, materialize_pending, pending_entry, push_pending,
  add_pending, fetch_directory, list_directory_cached, directory_cache_key, inode_for_path,
  attr_from_entry_for_path, learn, learn_found, refresh_named, refresh_path_from_parent,
  refresh_inode_from_parent, invalidate_directory_cache_for_path,
}
use remote_file_system_in_ru.Client.Fuse.Inodes.{IsMount}
use remote_file_system_in_ru.Client.Cache.{TtlLruCache}
use remote_file_system_in_ru.Client.Fuse.Keeps.{
  Keeps, keeps_rules, Owns, cache_attr-IsMount, allocate_inode-Owns, handles-IsMount,
  release_handle-IsMount, release_handle-given_out,
}

module _ {F : FileSystem} {T : Transport} where
  directory_cache-IsMount :
      (s : RemoteFs F T) (cache : TtlLruCache Bytes (List DirectoryEntry))
      → IsMount s
      → IsMount (record s { directory_cache = cache })
  directory_cache-IsMount s cache h = record {
    inodes_left = h.inodes_left;
    handles_left = h.handles_left;
    paths = h.paths;
    handles = h.handles;
  }

  pub inode_path-Keeps : (ino : ℕ) → Keeps {F = F} {T = T} (inode_path ino)
  unfolding inode_path
  inode_path-Keeps ino = record { kept = λ s h. h }

  pub child_path-Keeps :
      (parent : ℕ) (name : OsName) → Keeps {F = F} {T = T} (child_path parent name)
  unfolding child_path
  child_path-Keeps parent name = search (keeps_rules, inode_path-Keeps)

module _ (F : FileSystem) (T : Transport) (mount : MountSettings) where
  flush_pending-Keeps : (entry : ℕ) → Keeps (flush_pending F T mount entry)
  unfolding flush_pending
  flush_pending-Keeps entry = search keeps_rules

  pub materialize_pending-Keeps : (path : Bytes) → Keeps (materialize_pending F T mount path)
  unfolding materialize_pending
  materialize_pending-Keeps path = record {
    kept = λ s h. elim (Option-cases (Writeback.get_pending path s.writeback)) [
      | inl missing ↦ rw (materialize_pending, missing) h
      | inr (found, there) ↦ elim (Option-cases (Pending.committed_metadata found.1)) [
        | inr (metadata, done) ↦ rw (materialize_pending, there, done) h
        | inl waiting ↦
            rw (materialize_pending, there, waiting) ((flush_pending-Keeps found.0).kept s h)
      ]
    ];
  }

  pending_entry-Keeps : (entry : ℕ) → Keeps (pending_entry F T mount entry)
  unfolding pending_entry
  pending_entry-Keeps entry = search keeps_rules

  add_pending-Keeps :
      (pending : List (ℕ × PendingFile)) (entries : List DirectoryEntry)
      → Keeps (add_pending F T mount pending entries)
  unfolding add_pending
  add_pending-Keeps [] entries = search keeps_rules
  add_pending-Keeps ((entry, pending) ∷ rest) entries =
      search (keeps_rules, pending_entry-Keeps, add_pending-Keeps rest)

  fetch_directory-Keeps : (cache_key : Bytes) → Keeps (fetch_directory F T mount cache_key)
  unfolding fetch_directory
  fetch_directory-Keeps cache_key =
      search (keeps_rules, add_pending-Keeps, directory_cache-IsMount) depth 12

  pub list_directory_cached-Keeps : (path : Bytes) → Keeps (list_directory_cached F T mount path)
  unfolding list_directory_cached
  list_directory_cached-Keeps path = record {
    kept = λ s h.
        let key = directory_cache_key path in
        elim (Option-cases (Cache.get s.clock key s.directory_cache).0) [
          | inl miss ↦
              rw (list_directory_cached, miss)
                ((fetch_directory-Keeps key).kept _ (directory_cache-IsMount s _ h))
          | inr (entries, hit) ↦ rw (list_directory_cached, hit) (directory_cache-IsMount s _ h)
        ];
  }

  -- A path takes its own inode, or a new one.
  pub learn-Keeps : (path : Bytes) (entry : DirectoryEntry) → Keeps (learn F T mount path entry)
  unfolding learn attr_from_entry_for_path inode_for_path attr_from_directory_entry create_file_attr
      ◌>>=◌ ◌>>◌ pure modify allocate_inode
  learn-Keeps path entry = record {
    kept = λ s h. elim (Option-cases (Map.lookup path s.path_to_inode)) [
      | inl new ↦
          let (fresh, owns) = allocate_inode-Owns path s h in
          rw (inode_for_path, new) (cache_attr-IsMount path _ _ fresh owns)
      | inr (ino, there) ↦
          rw (inode_for_path, there)
            (cache_attr-IsMount path _ s h (
              h.paths.given_out path ino there,
              λ other found. h.paths.distinct other path ino found there,
            ))
    ];
  }

  pub ruleset listing_rules = (
    keeps_rules, inode_path-Keeps, child_path-Keeps, materialize_pending-Keeps,
    list_directory_cached-Keeps, learn-Keeps,
  )

  learn_found-Keeps :
      (path : Bytes) (entry : Option DirectoryEntry) → Keeps (learn_found F T mount path entry)
  unfolding learn_found
  learn_found-Keeps path none = search keeps_rules
  learn_found-Keeps path (some entry) = search (keeps_rules, learn-Keeps)

  refresh_named-Keeps : (path name : Bytes) → Keeps (refresh_named F T mount path name)
  unfolding refresh_named
  refresh_named-Keeps path name =
      search (keeps_rules, list_directory_cached-Keeps, learn_found-Keeps) depth 12

  refresh_path_from_parent-Keeps : (path : Bytes) → Keeps (refresh_path_from_parent F T mount path)
  unfolding refresh_path_from_parent
  refresh_path_from_parent-Keeps path = search (keeps_rules, refresh_named-Keeps) depth 12

  pub refresh_inode_from_parent-Keeps : (ino : ℕ) → Keeps (refresh_inode_from_parent F T mount ino)
  unfolding refresh_inode_from_parent
  refresh_inode_from_parent-Keeps ino = record {
    kept = λ s h. elim (Option-cases (path_for_inode ino s)) [
      | inl missing ↦ rw (refresh_inode_from_parent, missing) h
      | inr (path, there) ↦
          rw (refresh_inode_from_parent, there) ((refresh_path_from_parent-Keeps path).kept s h)
    ];
  }
