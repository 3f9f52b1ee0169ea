-- ===== src/Server/PathSecurity.antt =====
-- `server/src/path_security.rs` on Unix: from the path of a request to a path below the root.
-- A path on the disk is the list of its components; `root_dir.join(relative)` appends.
pub mod Laws
pub mod Containment
use remote_file_system_in_ru.Base.{
  Bool, true, false, Option, none, some, List, [], ◌∷◌, ◌++◌, if◌then◌else◌, is_some_and, Result,
  ok, err,
}
use remote_file_system_in_ru.Base.Bytes.{Bytes, bytes_eq, codes}
use remote_file_system_in_ru.Text.Slashes.{Component, normal, components, trim_matches}
use remote_file_system_in_ru.FileSystem.{ErrorKind, FilePath, FileSystem, Metadata, is_symlink}
use remote_file_system_in_ru.Server.Error.{StorageError, bad_request, forbidden, from_io}

abbrev pub internal_dir_name : Bytes
internal_dir_name = codes ".remote-fs-transactions"

-- The loop of `sanitize_api_path`: a component that is no name ends it with an error.
unfoldable pub push_components : FilePath → List Component → Result StorageError FilePath
push_components relative_path [] = ok relative_path
push_components relative_path (normal part ∷ rest) =
    push_components (relative_path ++ part ∷ []) rest
push_components relative_path (_ ∷ rest) = err (bad_request "Invalid path")

unfoldable pub sanitize_api_path : Bytes → Result StorageError FilePath
unfolding push_components
sanitize_api_path path =
    let trimmed_path = trim_matches path in
    if bytes_eq trimmed_path [] then ok [] else push_components [] (components trimmed_path)

abbrev pub head? : FilePath → Option Bytes
head? [] = none
head? (part ∷ rest) = some part

unfoldable pub reject_internal_path : FilePath → Result StorageError (Unit {0})
reject_internal_path path =
    if is_some_and (head? path) (λ component. bytes_eq component internal_dir_name)
    then err (forbidden "Path is reserved by the server")
    else ok tt

-- What the loop does with the metadata of one more component: go on, stop as there is nothing
-- there, or refuse.
unfoldable pub inspect : Result ErrorKind Metadata → Result StorageError Bool
inspect (ok metadata) =
    if is_symlink metadata
    then err (forbidden "Symbolic links and reparse points are not allowed")
    else ok true
inspect (err ErrorKind.not_found) = ok false
inspect (err error) = err (from_io error "Could not inspect path")

module _ (F : FileSystem) where
  -- The loop of `reject_link_components`, over the components below `current`.
  unfoldable pub reject_link_components :
      FilePath → FilePath → F.State → Result StorageError (Unit {0})
  unfolding inspect
  reject_link_components current [] s = ok tt
  reject_link_components current (part ∷ rest) s =
      let next = current ++ part ∷ [] in
      let more = reject_link_components next rest s in
      elim (inspect (F.symlink_metadata next s)) [
        | err error ↦ err error
        | ok go_on ↦ if go_on then more else ok tt
      ]

  unfoldable pub check_relative : FilePath → FilePath → F.State → Result StorageError FilePath
  unfolding reject_internal_path
  check_relative root_dir relative_path s = elim (reject_internal_path relative_path) [
    | err error ↦ err error
    | ok _ ↦ elim (reject_link_components root_dir relative_path s) [
      | err error ↦ err error
      | ok _ ↦ ok (root_dir ++ relative_path)
    ]
  ]

  unfoldable pub resolve_path : FilePath → Bytes → F.State → Result StorageError FilePath
  unfolding check_relative
  resolve_path root_dir path s = elim (sanitize_api_path path) [
    | err error ↦ err error
    | ok relative_path ↦ check_relative root_dir relative_path s
  ]

  abbrev pub check_non_root : FilePath → FilePath → F.State → Result StorageError FilePath
  check_non_root root_dir [] s = err (bad_request "Path cannot be empty")
  check_non_root root_dir (part ∷ rest) s = check_relative root_dir (part ∷ rest) s

  unfoldable pub resolve_non_root_path : FilePath → Bytes → F.State → Result StorageError FilePath
  unfolding check_relative
  resolve_non_root_path root_dir path s = elim (sanitize_api_path path) [
    | err error ↦ err error
    | ok relative_path ↦ check_non_root root_dir relative_path s
  ]
