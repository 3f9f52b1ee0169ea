-- ===== src/Client/Fuse/Invariant/Callbacks.antt =====
-- The callbacks, one by one.
use mathlib.Core.Option
use remote_file_system_in_ru.Base.{
  arith, ℕ, ◌+◌, Bool, Option, none, some, List, [], ◌∷◌, ◌==◌, ◌++◌, if◌then◌else◌, inl, inr,
  Bool-cases, Option-cases, Result, Result-cases,
}
use remote_file_system_in_ru.Base.Bytes.{Bytes, codes, bytes_eq_instance}
use remote_file_system_in_ru.Base.Map
use remote_file_system_in_ru.Base.Effect.{◌>>=◌, pure}
use remote_file_system_in_ru.FileSystem.{FileSystem}
use remote_file_system_in_ru.Protocol.{DirectoryEntry}
use remote_file_system_in_ru.Client.Journal.{IoError}
use remote_file_system_in_ru.Client.Api.{Transport}
use remote_file_system_in_ru.Client.Fuse.{
  Errno, FileKind, FileAttr, HandleKind, OpenHandle, RemoteFs, Callback, MountSettings, OsName,
  FileOffset, negative, at,
}
use remote_file_system_in_ru.Client.Fuse.Tables.{
  asks, path_for_inode, fresh_attr_for_inode, release_handle, handle_for,
}
use remote_file_system_in_ru.Client.Fuse.Directories.{
  find_entry, list_directory_cached, refresh_inode_from_parent,
}
use remote_file_system_in_ru.Client.Fuse.Inodes.{IsMount, insert-IsHandleTable}
use remote_file_system_in_ru.Client.Fuse.Keeps.{
  Keeps, keeps_rules, Keeps-bind, Keeps-pure, handles-IsMount, release_handle-IsMount,
  release_handle-given_out,
}
use remote_file_system_in_ru.Client.Fuse.Invariant.{
  inode_path-Keeps, list_directory_cached-Keeps, learn-Keeps, refresh_inode_from_parent-Keeps,
}
use remote_file_system_in_ru.Client.Fuse.Ops.Handles.{
  open_as, open_file, opendir, flush, fsync, put_back, releasedir, destroy, queue_closed, release,
  attr_from_pending, abandon,
}
use remote_file_system_in_ru.Client.Fuse.Ops.Lookup.{
  target_path, cached_entry, lookup_listed, lookup_in, lookup, stale_or_none, getattr, list_entries,
  remaining_entries, readdir, dotdot_inode, skip, fill, standard_entries, Listed, entry_path,
}

module _ {F : FileSystem} {T : Transport} where
  pub handle_for-Keeps :
      (fh ino : ℕ) (kind : HandleKind) → Keeps {F = F} {T = T} (handle_for fh ino kind)
  unfolding handle_for
  handle_for-Keeps fh ino kind = record { kept = λ s h. h }

  pub target_path-Keeps :
      (kind : HandleKind) (ino fh : ℕ) → Keeps {F = F} {T = T} (target_path kind ino fh)
  unfolding target_path
  target_path-Keeps kind ino fh = search (keeps_rules, inode_path-Keeps, handle_for-Keeps)

  open_as-Keeps :
      (kind : HandleKind) (require : FileKind → Result Errno (Unit {0})) (ino : ℕ)
      → Keeps {F = F} {T = T} (open_as kind require ino)
  unfolding open_as
  open_as-Keeps kind require ino = search (keeps_rules, inode_path-Keeps) depth 12

  pub flush-Keeps : (ino fh : ℕ) → Keeps {F = F} {T = T} (flush ino fh)
  unfolding flush
  flush-Keeps ino fh = search (keeps_rules, handle_for-Keeps)

  pub fsync-Keeps : (ino fh : ℕ) → Keeps {F = F} {T = T} (fsync ino fh)
  unfolding fsync
  fsync-Keeps ino fh = search (keeps_rules, handle_for-Keeps)

  pub open_file-Keeps : (ino : ℕ) → Keeps {F = F} {T = T} (open_file ino)
  unfolding open_file
  open_file-Keeps ino = open_as-Keeps _ _ ino

  pub opendir-Keeps : (ino : ℕ) → Keeps {F = F} {T = T} (opendir ino)
  unfolding opendir
  opendir-Keeps ino = open_as-Keeps _ _ ino

  -- A handle that `release_handle` took out is put back under its number, or what follows keeps the
  -- tables in order.
  after_release-Keeps :
      (ino fh : ℕ) (kind : HandleKind) (next : OpenHandle → Callback F T (Unit {0}))
      → ((handle : OpenHandle) → Keeps (next handle))
      → Keeps (
          release_handle fh kind
          >>= (λ handle. if handle.ino == ino then next handle else put_back fh handle))
  unfolding ◌>>=◌ put_back
  after_release-Keeps ino fh kind next keeps = record {
    kept = λ s h.
        let released_ok = release_handle-IsMount fh kind s h in
        elim (Result-cases (release_handle fh kind s).0) [
          | inr (errno, e) ↦ rw (e, ◌>>=◌) released_ok
          | inl (handle, e) ↦ elim (Bool-cases (handle.ino == ino)) [
            | inl same ↦ rw (e, ◌>>=◌, same) ((keeps handle).kept _ released_ok)
            | inr other ↦
                rw (e, ◌>>=◌, other)
                  (handles-IsMount _ _ released_ok (
                    insert-IsHandleTable _ _ fh handle
                      (release_handle-given_out fh kind s handle h e) released_ok.handles))
          ]
        ];
  }

  pub releasedir-Keeps : (ino fh : ℕ) → Keeps {F = F} {T = T} (releasedir ino fh)
  unfolding releasedir
  releasedir-Keeps ino fh = after_release-Keeps ino fh _ (λ handle. pure tt) (search keeps_rules)

  pub destroy-IsMount : (s : RemoteFs F T) → IsMount s → IsMount (destroy s)
  unfolding destroy Map.lookup
  destroy-IsMount s h = record {
    inodes_left = h.inodes_left;
    handles_left = h.handles_left;
    paths = h.paths;
    handles = λ fh handle found. absurd (ground arith);
  }

module _ (F : FileSystem) (T : Transport) (mount : MountSettings) where
  queue_closed-Keeps : (path : Bytes) → Keeps (queue_closed F T mount path)
  unfolding queue_closed
  queue_closed-Keeps path = search keeps_rules depth 12

  pub release-Keeps : (ino fh : ℕ) → Keeps (release F T mount ino fh)
  unfolding release
  release-Keeps ino fh =
      after_release-Keeps ino fh _ (λ handle. queue_closed F T mount handle.path)
        (λ handle. queue_closed-Keeps handle.path)

  pub attr_from_pending-Keeps : (ino entry : ℕ) → Keeps (attr_from_pending F T mount ino entry)
  unfolding attr_from_pending
  attr_from_pending-Keeps ino entry = search keeps_rules

  pub abandon-Keeps : (entry : ℕ) (error : IoError) → Keeps (abandon F T mount entry error)
  unfolding abandon
  abandon-Keeps entry error = search keeps_rules depth 12

  -- The lookups.
  lookup_listed-Keeps :
      (path : Bytes) (entry : Option DirectoryEntry) → Keeps (lookup_listed F T mount path entry)
  unfolding lookup_listed
  lookup_listed-Keeps path none = search keeps_rules
  lookup_listed-Keeps path (some entry) = learn-Keeps F T mount path entry

  lookup_in-Keeps : (parent_path name : Bytes) → Keeps (lookup_in F T mount parent_path name)
  unfolding lookup_in
  lookup_in-Keeps parent_path name = record {
    kept = λ s h. elim (Option-cases (cached_entry (entry_path parent_path name) s)) [
      | inr (attr, hit) ↦ rw (lookup_in, hit) h
      | inl miss ↦ rw (lookup_in, miss) (rest.kept s h)
    ];
  }
    where
      rest : Keeps (do
        entries ← list_directory_cached F T mount parent_path
        lookup_listed F T mount (entry_path parent_path name) (find_entry name entries))
      rest = search (keeps_rules, list_directory_cached-Keeps, lookup_listed-Keeps)

  pub lookup-Keeps : (parent : ℕ) (name : OsName) → Keeps (lookup F T mount parent name)
  unfolding lookup
  lookup-Keeps parent none = record { kept = λ s h. h }
  lookup-Keeps parent (some name) = record {
    kept = λ s h.
        (lookup_in-Keeps (Option.get_or (path_for_inode parent s) (codes "/")) name).kept s h;
  }

  stale_or_none-Keeps :
      (ino : ℕ) (attr : Option FileAttr) → Keeps (stale_or_none F T mount ino attr)
  unfolding stale_or_none
  stale_or_none-Keeps ino none = record { kept = λ s h. h }
  stale_or_none-Keeps ino (some attr) = record { kept = λ s h. h }

  pub getattr-Keeps : (ino : ℕ) → Keeps (getattr F T mount ino)
  unfolding getattr
  getattr-Keeps ino = record {
    kept = λ s h. elim (Option-cases (fresh_attr_for_inode ino s)) [
      | inr (attr, fresh) ↦ rw (getattr, fresh) h
      | inl stale ↦ rw (getattr, stale) (rest.kept s h)
    ];
  }
    where
      rest : Keeps (do
        refreshed ← refresh_inode_from_parent F T mount ino
        stale_or_none F T mount ino refreshed)
      rest = search (keeps_rules, refresh_inode_from_parent-Keeps, stale_or_none-Keeps)

  list_entries-Keeps :
      (path : Bytes) (index : ℕ) (entries : List DirectoryEntry)
      → Keeps (list_entries F T mount path index entries)
  unfolding list_entries
  list_entries-Keeps path index [] = search keeps_rules
  list_entries-Keeps path index (entry ∷ entries) =
      Keeps-bind _ _ (learn-Keeps F T mount (entry_path path entry.name) entry) (λ attr.
        Keeps-bind _ _ (list_entries-Keeps path (index + 1) entries) (λ rest. Keeps-pure _))

  remaining_entries-Keeps :
      (path : Bytes) (offset : ℕ) → Keeps (remaining_entries F T mount path offset)
  unfolding remaining_entries
  remaining_entries-Keeps path offset =
      search (keeps_rules, list_directory_cached-Keeps, list_entries-Keeps)

  pub readdir-Keeps :
      (full : List Listed → Listed → Bool) (ino fh : ℕ) (offset : FileOffset)
      → Keeps (readdir F T mount full ino fh offset)
  unfolding readdir
  readdir-Keeps full ino fh negative = record { kept = λ s h. h }
  readdir-Keeps full ino fh (at offset) = record { kept = λ s h. rest.kept s h }
    where
      rest : Keeps (do
        current_path ← target_path HandleKind.directory_handle ino fh
        dotdot ← asks (dotdot_inode current_path)
        listed ← remaining_entries F T mount current_path offset
        pure (fill full [] (skip offset (standard_entries F T mount ino dotdot ++ listed))))
      rest = search (keeps_rules, target_path-Keeps, remaining_entries-Keeps)
