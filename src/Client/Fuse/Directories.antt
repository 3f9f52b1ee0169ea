-- ===== src/Client/Fuse/Directories.antt =====
-- Directory listings with their cache, and what the mount learns from them.
pub mod Order
use remote_file_system_in_ru.Base.{
  ℕ, Bool, ◌&&◌, ◌||◌, true, false, Option, none, some, List, [], ◌∷◌, ◌++◌, ltb, ◌==◌, ok,
  if◌then◌else◌,
}
use remote_file_system_in_ru.Base.Bytes.{Bytes, codes, bytes_eq, bytes_eq_instance, starts_with}
use remote_file_system_in_ru.Base.Map
use remote_file_system_in_ru.Base.Effect.{
  match_option, match_result, Effect, ◌>>=◌, ◌>>◌, pure, attempt, map_error,
}
use remote_file_system_in_ru.FileSystem.{FileSystem}
use remote_file_system_in_ru.Text.Slashes.{trim_end, trim_matches, Component, components}
use remote_file_system_in_ru.Protocol.{DirectoryEntry, RemoteMetadata}
use remote_file_system_in_ru.Client.Cache
use remote_file_system_in_ru.Client.RemotePath
use remote_file_system_in_ru.Client.Journal.{IoError, PendingFile}
use remote_file_system_in_ru.Client.Journal.Pending
use remote_file_system_in_ru.Client.Writeback
use remote_file_system_in_ru.Client.Writeback.{Action}
use remote_file_system_in_ru.Client.Writeback.Uploads
use remote_file_system_in_ru.Client.Api.{Transport, HttpError, Call}
use remote_file_system_in_ru.Client.Api.Calls
use remote_file_system_in_ru.Client.Fuse.{FileAttr, RemoteFs, Callback, MountSettings, fuse_root_id}
use remote_file_system_in_ru.Client.Fuse.Attributes.{
  attr_from_directory_entry, entry_of_pending, errno_from_api_error, errno_from_io_error,
}
use remote_file_system_in_ru.Client.Fuse.Tables.{
  asks, modify, path_for_inode, attr_for_inode, allocate_inode, cache_attr,
}

unfoldable pub directory_cache_key : Bytes → Bytes
unfolding bytes_eq trim_matches
directory_cache_key path =
    if bytes_eq path (codes "/") || bytes_eq path []
    then codes "/"
    else codes "/" ++ trim_matches path

-- The order of texts by their bytes, `left.name.cmp(&right.name)` where it is `Less`.
unfoldable pub bytes_lt : Bytes → Bytes → Bool
bytes_lt s [] = false
bytes_lt [] (d ∷ t) = true
bytes_lt (c ∷ s) (d ∷ t) = ltb c d || (c == d) && bytes_lt s t

-- `sort_by`, which is stable.
unfoldable pub insert_entry : DirectoryEntry → List DirectoryEntry → List DirectoryEntry
unfolding bytes_lt
insert_entry entry [] = entry ∷ []
insert_entry entry (next ∷ rest) =
    if bytes_lt next.name entry.name then next ∷ insert_entry entry rest else entry ∷ next ∷ rest

unfoldable pub sort_entries : List DirectoryEntry → List DirectoryEntry
unfolding insert_entry
sort_entries [] = []
sort_entries (entry ∷ entries) = insert_entry entry (sort_entries entries)

-- `entries.retain(…)` and `entries.push(…)`.
unfoldable pub drop_named : Bytes → List DirectoryEntry → List DirectoryEntry
unfolding bytes_eq
drop_named name [] = []
drop_named name (entry ∷ entries) =
    let rest = drop_named name entries in if bytes_eq entry.name name then rest else entry ∷ rest

unfoldable pub push_pending : DirectoryEntry → List DirectoryEntry → List DirectoryEntry
unfolding drop_named
push_pending entry entries = drop_named entry.name entries ++ entry ∷ []

-- `entries.into_iter().find(|entry| entry.name == name)`.
unfoldable pub find_entry : Bytes → List DirectoryEntry → Option DirectoryEntry
unfolding bytes_eq
find_entry name [] = none
find_entry name (entry ∷ entries) =
    if bytes_eq entry.name name then some entry else find_entry name entries

-- `Path::file_name`: the last component, where it is a name.
abbrev pub normal_name : Component → Option Bytes
normal_name Component.root_dir = none
normal_name Component.cur_dir = none
normal_name Component.parent_dir = none
normal_name (Component.normal name) = some name

unfoldable pub last_name : List Component → Option Bytes
last_name [] = none
last_name (component ∷ []) = normal_name component
last_name (component ∷ next ∷ rest) = last_name (next ∷ rest)

unfoldable pub path_file_name : Bytes → Option Bytes
unfolding last_name components
path_file_name path = last_name (components path)

-- The keys that `invalidate_directory_cache_tree` removes.
unfoldable pub is_in_tree : Bytes → Bytes → Bytes → Bool
unfolding bytes_eq trim_end
is_in_tree path_key parent_key key =
    bytes_eq key path_key
    || bytes_eq key parent_key
    || starts_with key (trim_end path_key ++ codes "/")

module _ {F : FileSystem} {T : Transport} where
  unfoldable pub on_writeback {ℓ} : {A : Type ℓ} → Action F T A → Effect (RemoteFs F T) IoError A
  on_writeback m s = let (r, w) = m s.writeback in (r, record s { writeback = w })

  -- `runtime.block_on` of a request.
  unfoldable pub block_on {ℓ} : {A : Type ℓ} → Call T A → Effect (RemoteFs F T) HttpError A
  block_on m s =
      let (r, t) = m s.writeback.outside.remote in
      (
        r,
        record s {
          writeback = record s.writeback { outside = record s.writeback.outside { remote = t } };
        },
      )

  unfoldable pub invalidate_directory_cache_for_path : Bytes → RemoteFs F T → RemoteFs F T
  unfolding directory_cache_key RemotePath.parent bytes_eq Cache.remove
  invalidate_directory_cache_for_path path s = record s {
    directory_cache =
        Cache.remove
          (directory_cache_key
            (if bytes_eq path (codes "/") then codes "/" else RemotePath.parent path))
          s.directory_cache;
  }

  unfoldable pub invalidate_directory_cache_tree : Bytes → RemoteFs F T → RemoteFs F T
  unfolding directory_cache_key RemotePath.parent is_in_tree Cache.remove_matching
  invalidate_directory_cache_tree path s = record s {
    directory_cache =
        Cache.remove_matching
          (is_in_tree (directory_cache_key path) (directory_cache_key (RemotePath.parent path)))
          s.directory_cache;
  }

  -- The number of the path, or a new one.
  unfoldable pub inode_for_path : Bytes → Callback F T ℕ
  unfolding allocate_inode Map.lookup
  inode_for_path path s = elim (Map.lookup path s.path_to_inode) [
    | none ↦ allocate_inode s
    | some ino ↦ (ok ino, s)
  ]

module _ (F : FileSystem) (T : Transport) (mount : MountSettings) where
  unfoldable pub flush_pending : ℕ → Effect (RemoteFs F T) IoError (Option RemoteMetadata)
  unfolding on_writeback Uploads.flush
  flush_pending entry = do
    metadata ← on_writeback (Uploads.flush F T mount.writeback entry)
    pure (some metadata)

  unfoldable pub materialize_pending : Bytes → Effect (RemoteFs F T) IoError (Option RemoteMetadata)
  unfolding Writeback.get_pending Pending.committed_metadata flush_pending
  materialize_pending path s = elim (Writeback.get_pending path s.writeback) [
    | none ↦ (ok none, s)
    | some found ↦ elim (Pending.committed_metadata found.1) [
      | some metadata ↦ (ok (some metadata), s)
      | none ↦ flush_pending found.0 s
    ]
  ]

  -- `attr_from_pending`, and the entry of a pending file.
  unfoldable pub pending_entry : ℕ → Effect (RemoteFs F T) IoError DirectoryEntry
  unfolding on_writeback Writeback.on_entry Pending.metadata Pending.of_pending entry_of_pending
  pending_entry entry = do
    metadata ← on_writeback (Writeback.on_entry entry (Pending.metadata F))
    pending ← on_writeback (Writeback.on_entry entry (Pending.of_pending (λ p. p)))
    pure (entry_of_pending pending metadata)

  -- The loop over the files that wait below the directory.
  unfoldable pub add_pending :
      List (ℕ × PendingFile) → List DirectoryEntry → Callback F T (List DirectoryEntry)
  unfolding pending_entry push_pending errno_from_io_error Pending.is_committed
  add_pending [] entries = pure entries
  add_pending ((entry, pending) ∷ rest) entries =
      if Pending.is_committed pending then add_pending rest entries else (do
        added ← map_error errno_from_io_error (pending_entry entry)
        add_pending rest (push_pending added entries))

  -- The miss of `list_directory_cached`.
  unfoldable pub fetch_directory : Bytes → Callback F T (List DirectoryEntry)
  unfolding block_on Calls.list_directory errno_from_api_error add_pending
      Writeback.entries_in_directory sort_entries Cache.insert
  fetch_directory cache_key = do
    listed ←
        map_error errno_from_api_error
          (block_on (Calls.list_directory T mount.writeback.connection (RemotePath.api cache_key)))
    pending ← asks (λ s. Writeback.entries_in_directory cache_key s.writeback)
    entries ← add_pending pending listed
    modify (λ s. record s {
      directory_cache = Cache.insert s.clock cache_key (sort_entries entries) s.directory_cache;
    })
    pure (sort_entries entries)

  unfoldable pub list_directory_cached : Bytes → Callback F T (List DirectoryEntry)
  unfolding directory_cache_key Cache.get fetch_directory
  list_directory_cached directory_path s =
      let key = directory_cache_key directory_path in
      let (hit, cache) = Cache.get s.clock key s.directory_cache in
      let looked = record s { directory_cache = cache } in
      elim hit [ some entries ↦ (ok entries, looked) | none ↦ fetch_directory key looked ]

  unfoldable pub attr_from_entry_for_path : Bytes → DirectoryEntry → Callback F T FileAttr
  unfolding inode_for_path attr_from_directory_entry
  attr_from_entry_for_path path entry = do
    ino ← inode_for_path path
    pure (attr_from_directory_entry mount ino entry)

  -- The attributes of an entry, kept for its path.
  unfoldable pub learn : Bytes → DirectoryEntry → Callback F T FileAttr
  unfolding attr_from_entry_for_path cache_attr
  learn path entry = do
    attr ← attr_from_entry_for_path path entry
    modify (cache_attr path attr)
    pure attr

  unfoldable pub learn_found : Bytes → Option DirectoryEntry → Callback F T (Option FileAttr)
  unfolding learn
  learn_found path none = pure none
  learn_found path (some entry) = do attr ← learn path entry; pure (some attr)

  -- The failure of a listing is no attribute.
  unfoldable pub refresh_named : Bytes → Bytes → Callback F T (Option FileAttr)
  unfolding list_directory_cached find_entry learn_found RemotePath.parent match_result
  refresh_named path name = do
    listed ← attempt (list_directory_cached (RemotePath.parent path))
    match_result listed (λ entries. learn_found path (find_entry name entries)) (λ errno. pure none)

  unfoldable pub refresh_path_from_parent : Bytes → Callback F T (Option FileAttr)
  unfolding refresh_named path_file_name attr_for_inode bytes_eq match_option
  refresh_path_from_parent path =
      if bytes_eq path (codes "/")
      then asks (attr_for_inode fuse_root_id)
      else match_option (path_file_name path) (pure none) (refresh_named path)

  unfoldable pub refresh_inode_from_parent : ℕ → Callback F T (Option FileAttr)
  unfolding refresh_path_from_parent path_for_inode
  refresh_inode_from_parent ino s = elim (path_for_inode ino s) [
    | none ↦ (ok none, s)
    | some path ↦ refresh_path_from_parent path s
  ]
