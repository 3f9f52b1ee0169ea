-- ===== src/Client/Fuse/Renames.antt =====
-- How the tables follow the removal and the renaming of paths.
use remote_file_system_in_ru.Base.{
  ℕ, Bool, ◌&&◌, ◌||◌, not, false, none, some, List, [], ◌∷◌, ◌++◌, ◌==◌, ok_or, is_some,
  if◌then◌else◌,
}
use remote_file_system_in_ru.Base.Bytes.{
  Bytes, codes, bytes_eq, bytes_eq_instance, starts_with, strip_prefix,
}
use remote_file_system_in_ru.Base.Equality.{nat_eq}
use remote_file_system_in_ru.Base.Map
use remote_file_system_in_ru.Base.Map.{Map}
use remote_file_system_in_ru.Base.Effect.{◌>>=◌, pure, lift}
use remote_file_system_in_ru.FileSystem.{FileSystem}
use remote_file_system_in_ru.Text.Slashes.{slash, trim_end, file_name}
use remote_file_system_in_ru.Client.Journal.Names.{strip_suffix}
use remote_file_system_in_ru.Client.Api.{Transport}
use remote_file_system_in_ru.Client.Fuse.{
  einval, CachedAttr, OpenHandle, RemoteFs, Callback, OsName,
}
use remote_file_system_in_ru.Client.Fuse.Tables.{child_path, inode_path, asks}
use remote_file_system_in_ru.Client.Fuse.Directories.{invalidate_directory_cache_tree}

-- `format!("{}/", path.trim_end_matches('/'))`, and what lies at a path or below it.
unfoldable pub below_prefix : Bytes → Bytes
unfolding trim_end
below_prefix path = trim_end path ++ codes "/"

unfoldable pub is_at_or_below : Bytes → Bytes → Bool
unfolding bytes_eq below_prefix
is_at_or_below path cached_path =
    bytes_eq cached_path path || starts_with cached_path (below_prefix path)

-- The tables of paths and of attributes.
abbrev pub Caches : Type 0
Caches = Map Bytes ℕ × Map ℕ CachedAttr

unfoldable pub paths_at_or_below : Bytes → Map Bytes ℕ → List Bytes
unfolding is_at_or_below
paths_at_or_below path [] = []
paths_at_or_below path ((cached_path, ino) ∷ m) =
    let rest = paths_at_or_below path m in
    if is_at_or_below path cached_path then cached_path ∷ rest else rest

unfoldable pub entries_at_or_below : Bytes → Map Bytes ℕ → Map Bytes ℕ
unfolding is_at_or_below Map.retain
entries_at_or_below path m = Map.retain (λ cached_path ino. is_at_or_below path cached_path) m

-- A path is removed with the attributes of its inode.
unfoldable pub forget_path : Bytes → Caches → Caches
unfolding Map.lookup Map.remove
forget_path path caches = elim (Map.lookup path caches.0) [
  | none ↦ caches
  | some ino ↦ (Map.remove path caches.0, Map.remove ino caches.1)
]

unfoldable pub forget_paths : List Bytes → Caches → Caches
unfolding forget_path
forget_paths [] caches = caches
forget_paths (path ∷ paths) caches = forget_paths paths (forget_path path caches)

unfoldable pub remove_paths : Map Bytes ℕ → Map Bytes ℕ → Map Bytes ℕ
unfolding Map.remove
remove_paths [] m = m
remove_paths ((path, ino) ∷ moved) m = remove_paths moved (Map.remove path m)

-- Where a path at or below `from` goes.
unfoldable pub moved_path : Bytes → Bytes → Bytes → Bytes
unfolding bytes_eq below_prefix trim_end strip_prefix
moved_path from to old_path =
    if bytes_eq old_path from then to else (elim (strip_prefix (below_prefix from) old_path) [
      | none ↦ trim_end to ++ (codes "/" ++ [])
      | some suffix ↦ trim_end to ++ (codes "/" ++ suffix)
    ])

unfoldable pub insert_moved : Bytes → Bytes → Map Bytes ℕ → Map Bytes ℕ → Map Bytes ℕ
unfolding moved_path Map.insert
insert_moved from to [] m = m
insert_moved from to ((old_path, ino) ∷ moved) m =
    insert_moved from to moved (Map.insert (moved_path from to old_path) ino m)

unfoldable pub rename_caches : Bytes → Bytes → Caches → Caches
unfolding entries_at_or_below paths_at_or_below forget_paths remove_paths insert_moved
rename_caches from to caches =
    let moved_paths = entries_at_or_below from caches.0 in
    let (paths, inodes) = forget_paths (paths_at_or_below to caches.0) caches in
    (insert_moved from to moved_paths (remove_paths moved_paths paths), inodes)

unfoldable pub rename_handles : Bytes → Bytes → Map ℕ OpenHandle → Map ℕ OpenHandle
unfolding is_at_or_below moved_path
rename_handles from to [] = []
rename_handles from to ((fh, handle) ∷ handles) =
    let rest = rename_handles from to handles in
    if is_at_or_below from handle.path
    then (fh, record handle { path = moved_path from to handle.path }) ∷ rest
    else (fh, handle) ∷ rest

-- The candidates for a source of which only the end of the name is given.
unfoldable pub has_slash : Bytes → Bool
has_slash [] = false
has_slash (c ∷ s) = c == slash || has_slash s

unfoldable pub is_candidate : Bytes → Bytes → Bool → Bytes → Bool
unfolding strip_prefix strip_suffix has_slash file_name
is_candidate parent_prefix name wants_appledouble path = elim (strip_prefix parent_prefix path) [
  | none ↦ false
  | some child_name ↦
      not (has_slash child_name)
      && is_some (strip_suffix name child_name)
      && (if wants_appledouble
          then starts_with (file_name path) (codes "._")
          else not (starts_with (file_name path) (codes "._")))
]

unfoldable pub candidates_among : Bytes → Bytes → Bool → Map Bytes ℕ → List Bytes
unfolding is_candidate
candidates_among parent_prefix name wants_appledouble [] = []
candidates_among parent_prefix name wants_appledouble ((path, ino) ∷ m) =
    let rest = candidates_among parent_prefix name wants_appledouble m in
    if is_candidate parent_prefix name wants_appledouble path then path ∷ rest else rest

-- The only candidate, or else the path as it was asked for.
abbrev pub only_or : Bytes → List Bytes → Bytes
only_or full_path [] = full_path
only_or full_path (candidate ∷ []) = candidate
only_or full_path (candidate ∷ other ∷ rest) = full_path

unfoldable pub parent_prefix_of : Bytes → Bytes
unfolding bytes_eq below_prefix
parent_prefix_of parent_path =
    if bytes_eq parent_path (codes "/") then codes "/" else below_prefix parent_path

module _ {F : FileSystem} {T : Transport} where
  unfoldable pub remove_cached_path : Bytes → RemoteFs F T → RemoteFs F T
  unfolding paths_at_or_below forget_paths invalidate_directory_cache_tree
  remove_cached_path path s =
      let (paths, inodes) =
        forget_paths (paths_at_or_below path s.path_to_inode) (s.path_to_inode, s.inode_map) in
      invalidate_directory_cache_tree path (record s { path_to_inode = paths; inode_map = inodes })

  unfoldable pub rename_cached_path : Bytes → Bytes → RemoteFs F T → RemoteFs F T
  unfolding rename_caches rename_handles invalidate_directory_cache_tree
  rename_cached_path from to s =
      let (paths, inodes) = rename_caches from to (s.path_to_inode, s.inode_map) in
      invalidate_directory_cache_tree to (
        invalidate_directory_cache_tree from (record s {
          path_to_inode = paths;
          inode_map = inodes;
          open_handles = rename_handles from to s.open_handles;
        }))

  unfoldable pub search_rename_source : Bytes → ℕ → OsName → OsName → Callback F T Bytes
  unfolding inode_path candidates_among parent_prefix_of
  search_rename_source full_path parent name newname = do
    name_str ← lift (ok_or name einval)
    newname_str ← lift (ok_or newname einval)
    parent_path ← inode_path parent
    asks (λ s. only_or full_path (
        candidates_among (parent_prefix_of parent_path) name_str
          (starts_with newname_str (codes "._")) s.path_to_inode))

  unfoldable pub resolve_rename_source_path : ℕ → OsName → OsName → Callback F T Bytes
  unfolding child_path search_rename_source Map.lookup
  resolve_rename_source_path parent name newname = do
    full_path ← child_path parent name
    known ← asks (λ s. is_some (Map.lookup full_path s.path_to_inode))
    if known then pure full_path else search_rename_source full_path parent name newname
