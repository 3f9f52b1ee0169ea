-- ===== src/Client/Fuse/Tables.antt =====
-- The tables of the mount: inodes and paths, attributes, and open handles.
use mathlib.Core.Option
use remote_file_system_in_ru.Base.{
  ℕ, ◌+◌, ◌-◌, Bool, ◌&&◌, ◌||◌, true, false, Option, none, some, [], ◌∷◌, leb, ◌==◌, Result, ok,
  err, ok_or, if◌then◌else◌,
}
use remote_file_system_in_ru.Base.Bytes.{Bytes, bytes_eq, bytes_eq_instance}
use remote_file_system_in_ru.Base.Equality.{nat_eq}
use remote_file_system_in_ru.Base.Map
use remote_file_system_in_ru.Base.Map.{Map}
use remote_file_system_in_ru.Base.Effect.{◌>>=◌, pure, lift}
use remote_file_system_in_ru.FileSystem.{FileSystem}
use remote_file_system_in_ru.Client.RemotePath
use remote_file_system_in_ru.Client.Api.{Transport}
use remote_file_system_in_ru.Client.Fuse.{
  Errno, einval, enoent, ebadf, FileAttr, CachedAttr, HandleKind, file_handle, directory_handle,
  OpenHandle, RemoteFs, Callback, OsName, fuse_root_id,
}

-- `ATTR_CACHE_TTL`, five seconds of the clock in milliseconds.
abbrev pub attr_cache_ttl : ℕ
attr_cache_ttl = 5000

unfoldable pub is_fresh : ℕ → CachedAttr → Bool
is_fresh clock cached =
    cached.attr.ino == fuse_root_id || leb (clock - cached.refreshed_at) attr_cache_ttl

abbrev pub kind_eq : HandleKind → HandleKind → Bool
kind_eq file_handle file_handle = true
kind_eq file_handle directory_handle = false
kind_eq directory_handle file_handle = false
kind_eq directory_handle directory_handle = true

-- The path that has an inode.
unfoldable pub find_path : ℕ → Map Bytes ℕ → Option Bytes
find_path ino [] = none
find_path ino ((path, inode) ∷ m) = if inode == ino then some path else find_path ino m

unfoldable pub path_has_file_handle : Bytes → Map ℕ OpenHandle → Bool
unfolding bytes_eq
path_has_file_handle path [] = false
path_has_file_handle path ((fh, handle) ∷ m) =
    kind_eq handle.kind file_handle && bytes_eq handle.path path || path_has_file_handle path m

-- The handle of a number, if it is of this inode and kind.
unfoldable pub handle_result : ℕ → ℕ → HandleKind → Map ℕ OpenHandle → Result Errno OpenHandle
unfolding Map.lookup
handle_result fh ino kind handles = if fh == 0 then err ebadf else (elim (Map.lookup fh handles) [
  | none ↦ err ebadf
  | some handle ↦ if handle.ino == ino && kind_eq handle.kind kind then ok handle else err ebadf
])

module _ {F : FileSystem} {T : Transport} where
  -- A function of the state, and a change of it.
  unfoldable pub asks {ℓ} : {A : Type ℓ} → (RemoteFs F T → A) → Callback F T A
  asks f s = (ok (f s), s)

  unfoldable pub modify : (RemoteFs F T → RemoteFs F T) → Callback F T (Unit {0})
  modify f s = (ok tt, f s)

  unfoldable pub path_for_inode : ℕ → RemoteFs F T → Option Bytes
  unfolding find_path
  path_for_inode ino s = find_path ino s.path_to_inode

  -- `path_for_inode(ino).ok_or(ENOENT)`.
  unfoldable pub inode_path : ℕ → Callback F T Bytes
  unfolding path_for_inode
  inode_path ino s = (ok_or (path_for_inode ino s) enoent, s)

  unfoldable pub child_path : ℕ → OsName → Callback F T Bytes
  unfolding inode_path RemotePath.child
  child_path parent name = do
    name_str ← lift (ok_or name einval)
    parent_path ← inode_path parent
    pure (RemotePath.child parent_path name_str)

  unfoldable pub allocate_inode : Callback F T ℕ
  allocate_inode s = (ok s.next_inode, record s { next_inode = s.next_inode + 1 })

  unfoldable pub allocate_handle : ℕ → Bytes → HandleKind → Callback F T ℕ
  unfolding Map.insert
  allocate_handle ino path kind s = (
    ok s.next_handle,
    record s {
      open_handles =
          Map.insert s.next_handle (record { ino = ino; path = path; kind = kind; dirty = false })
            s.open_handles;
      next_handle = s.next_handle + 1;
    },
  )

  unfoldable pub handle_for : ℕ → ℕ → HandleKind → Callback F T OpenHandle
  unfolding handle_result
  handle_for fh ino kind s = (handle_result fh ino kind s.open_handles, s)

  unfoldable pub mark_handle_dirty : ℕ → RemoteFs F T → RemoteFs F T
  unfolding Map.lookup Map.insert
  mark_handle_dirty fh s = elim (Map.lookup fh s.open_handles) [
    | none ↦ s
    | some handle ↦ record s {
      open_handles = Map.insert fh (record handle { dirty = true }) s.open_handles;
    }
  ]

  -- A handle of the other kind is put back.
  unfoldable pub release_handle : ℕ → HandleKind → Callback F T OpenHandle
  unfolding Map.lookup Map.remove Map.insert
  release_handle fh kind s = elim (Map.lookup fh s.open_handles) [
    | none ↦ (err ebadf, record s { open_handles = Map.remove fh s.open_handles })
    | some handle ↦
        if kind_eq handle.kind kind
        then (ok handle, record s { open_handles = Map.remove fh s.open_handles })
        else (
          err ebadf,
          record s { open_handles = Map.insert fh handle (Map.remove fh s.open_handles) },
        )
  ]

  unfoldable pub has_open_file_handle : Bytes → RemoteFs F T → Bool
  unfolding path_has_file_handle
  has_open_file_handle path s = path_has_file_handle path s.open_handles

  unfoldable pub update_cached_attr : ℕ → FileAttr → RemoteFs F T → RemoteFs F T
  unfolding Map.insert
  update_cached_attr ino attr s = record s {
    inode_map = Map.insert ino (record { attr = attr; refreshed_at = s.clock }) s.inode_map;
  }

  unfoldable pub cache_attr : Bytes → FileAttr → RemoteFs F T → RemoteFs F T
  unfolding update_cached_attr Map.insert
  cache_attr path attr s = record (update_cached_attr attr.ino attr s) {
    path_to_inode = Map.insert path attr.ino s.path_to_inode;
  }

  unfoldable pub attr_for_inode : ℕ → RemoteFs F T → Option FileAttr
  unfolding Map.lookup
  attr_for_inode ino s = Option.map (λ cached. cached.attr) (Map.lookup ino s.inode_map)

  unfoldable pub fresh_attr_for_inode : ℕ → RemoteFs F T → Option FileAttr
  unfolding Map.lookup is_fresh
  fresh_attr_for_inode ino s = elim (Map.lookup ino s.inode_map) [
    | none ↦ none
    | some cached ↦ if is_fresh s.clock cached then some cached.attr else none
  ]
