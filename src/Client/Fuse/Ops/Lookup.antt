-- ===== src/Client/Fuse/Ops/Lookup.antt =====
-- `lookup`, `getattr` and `readdir`.
use mathlib.Core.Option
use remote_file_system_in_ru.Base.{
  ℕ, zero, suc, ◌+◌, Bool, Option, none, some, List, [], ◌∷◌, ◌++◌, ltb, ◌==◌, ok, err, ok_or,
  if◌then◌else◌,
}
use remote_file_system_in_ru.Base.Bytes.{Bytes, codes, bytes_eq, bytes_eq_instance}
use remote_file_system_in_ru.Base.Map
use remote_file_system_in_ru.Base.Effect.{◌>>=◌, pure, fail}
use remote_file_system_in_ru.FileSystem.{FileSystem}
use remote_file_system_in_ru.Text.Slashes.{trim_end, split, join}
use remote_file_system_in_ru.Protocol.{DirectoryEntry}
use remote_file_system_in_ru.Client.Api.{Transport}
use remote_file_system_in_ru.Client.RemotePath.{root_if_empty}
use remote_file_system_in_ru.Client.Fuse.{
  enoent, einval, FileKind, directory, FileAttr, HandleKind, directory_handle, RemoteFs, Callback,
  MountSettings, OsName, FileOffset, negative, at, fuse_root_id,
}
use remote_file_system_in_ru.Client.Fuse.Tables.{
  asks, path_for_inode, inode_path, handle_for, attr_for_inode, fresh_attr_for_inode,
}
use remote_file_system_in_ru.Client.Fuse.Directories.{
  list_directory_cached, find_entry, learn, refresh_inode_from_parent,
}

-- The path of an entry of a directory, as `lookup` and `readdir` write it.
unfoldable pub entry_path : Bytes → Bytes → Bytes
unfolding bytes_eq trim_end
entry_path directory_path name =
    if bytes_eq directory_path (codes "/")
    then codes "/" ++ name
    else trim_end directory_path ++ (codes "/" ++ name)

-- An entry of `ReplyDirectory`: inode, offset of the next entry, kind and name.
pub record Listed : Type 0 where
  pub ino : ℕ
  pub offset : ℕ
  pub kind : FileKind
  pub name : Bytes

-- `Path::parent` of an absolute path: the pieces before the last component.
unfoldable pub skip_empty : List Bytes → List Bytes
unfolding bytes_eq
skip_empty [] = []
skip_empty (piece ∷ pieces) =
    let rest = skip_empty pieces in
    if bytes_eq piece [] then rest else if bytes_eq piece (codes ".") then rest else piece ∷ pieces

abbrev pub drop_first : List Bytes → List Bytes
drop_first [] = []
drop_first (piece ∷ pieces) = pieces

unfoldable pub reverse_onto : List Bytes → List Bytes → List Bytes
reverse_onto done [] = done
reverse_onto done (piece ∷ pieces) = reverse_onto (piece ∷ done) pieces

unfoldable pub path_parent : Bytes → Bytes
unfolding split join skip_empty reverse_onto
path_parent path =
    root_if_empty
      (join (reverse_onto [] (skip_empty (drop_first (skip_empty (reverse_onto [] (split path)))))))

-- `entries_for_reply.iter().enumerate().skip(offset)`, for entries counted from `index`.
unfoldable pub skip : ℕ → List Listed → List Listed
skip zero entries = entries
skip (suc n) [] = []
skip (suc n) (entry ∷ entries) = skip n entries

-- The loop that fills the reply. `full` is the answer of `reply.add`, from what the buffer holds.
unfoldable pub fill : (List Listed → Listed → Bool) → List Listed → List Listed → List Listed
fill full added [] = added
fill full added (entry ∷ entries) =
    if full added entry then added else fill full (added ++ entry ∷ []) entries

abbrev pub entry_kind : FileAttr → FileKind
entry_kind attr = attr.kind

module _ {F : FileSystem} {T : Transport} where
  -- The path of the handle, or of the inode where there is no handle.
  unfoldable pub target_path : HandleKind → ℕ → ℕ → Callback F T Bytes
  unfolding inode_path handle_for
  target_path kind ino fh =
      if fh == 0 then inode_path ino else (do handle ← handle_for fh ino kind; pure handle.path)

  unfoldable pub cached_entry : Bytes → RemoteFs F T → Option FileAttr
  unfolding fresh_attr_for_inode Map.lookup
  cached_entry path s =
      Option.bind (Map.lookup path s.path_to_inode) (λ ino. fresh_attr_for_inode ino s)

  unfoldable pub dotdot_inode : Bytes → RemoteFs F T → ℕ
  unfolding path_parent Map.lookup bytes_eq
  dotdot_inode current_path s =
      if bytes_eq current_path (codes "/")
      then fuse_root_id
      else Option.get_or (Map.lookup (path_parent current_path) s.path_to_inode) fuse_root_id

module _ (F : FileSystem) (T : Transport) (mount : MountSettings) where
  unfoldable pub lookup_listed : Bytes → Option DirectoryEntry → Callback F T FileAttr
  unfolding learn
  lookup_listed full_path none = fail enoent
  lookup_listed full_path (some entry) = learn F T mount full_path entry

  unfoldable pub lookup_in : Bytes → Bytes → Callback F T FileAttr
  unfolding entry_path cached_entry list_directory_cached find_entry lookup_listed
  lookup_in parent_path name s =
      let full_path = entry_path parent_path name in
      elim (cached_entry full_path s) [
        | some attr ↦ (ok attr, s)
        | none ↦
            (do
              entries ← list_directory_cached F T mount parent_path
              lookup_listed full_path (find_entry name entries))
              s
      ]

  -- An inode without a path stands for the root.
  unfoldable pub lookup : ℕ → OsName → Callback F T FileAttr
  unfolding lookup_in path_for_inode
  lookup parent_ino none s = (err enoent, s)
  lookup parent_ino (some name) s =
      lookup_in (Option.get_or (path_for_inode parent_ino s) (codes "/")) name s

  unfoldable pub stale_or_none : ℕ → Option FileAttr → Callback F T FileAttr
  unfolding attr_for_inode
  stale_or_none ino (some attr) s = (ok attr, s)
  stale_or_none ino none s = (ok_or (attr_for_inode ino s) enoent, s)

  unfoldable pub getattr : ℕ → Callback F T FileAttr
  unfolding fresh_attr_for_inode refresh_inode_from_parent stale_or_none
  getattr ino s = elim (fresh_attr_for_inode ino s) [
    | some attr ↦ (ok attr, s)
    | none ↦ (do refreshed ← refresh_inode_from_parent F T mount ino; stale_or_none ino refreshed) s
  ]

  -- The entries of a listing, with their offsets from `index` on.
  unfoldable pub list_entries : Bytes → ℕ → List DirectoryEntry → Callback F T (List Listed)
  unfolding learn entry_path
  list_entries current_path index [] = pure []
  list_entries current_path index (entry ∷ entries) = do
    attr ← learn F T mount (entry_path current_path entry.name) entry
    rest ← list_entries current_path (index + 1) entries
    pure (
        record { ino = attr.ino; offset = index + 1; kind = entry_kind attr; name = entry.name }
        ∷ rest)

  -- The directory is read only where the offset is below the two standard entries.
  unfoldable pub remaining_entries : Bytes → ℕ → Callback F T (List Listed)
  unfolding list_directory_cached list_entries
  remaining_entries current_path offset =
      if ltb offset 2
      then (do
        entries ← list_directory_cached F T mount current_path
        list_entries current_path 2 entries)
      else pure []

  unfoldable pub standard_entries : ℕ → ℕ → List Listed
  standard_entries ino dotdot =
      record { ino = ino; offset = 1; kind = directory; name = codes "." }
      ∷ record { ino = dotdot; offset = 2; kind = directory; name = codes ".." }
      ∷ []

  unfoldable pub readdir :
      (List Listed → Listed → Bool) → ℕ → ℕ → FileOffset → Callback F T (List Listed)
  unfolding target_path remaining_entries dotdot_inode standard_entries skip fill
  readdir full ino fh negative s = (err einval, s)
  readdir full ino fh (at offset) s =
      (do
        current_path ← target_path directory_handle ino fh
        dotdot ← asks (dotdot_inode current_path)
        listed ← remaining_entries current_path offset
        pure (fill full [] (skip offset (standard_entries ino dotdot ++ listed))))
        s
