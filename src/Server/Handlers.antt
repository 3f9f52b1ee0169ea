-- ===== src/Server/Handlers.antt =====
-- The handlers of `server/src/handlers.rs` that read, make, remove and rename. `write_file` is in
-- `WriteFile`, listings are not modelled. Log lines are left out.
pub mod Paths
pub mod Laws
use remote_file_system_in_ru.Base.{
  ℕ, ◌-◌, min, Bool, true, false, not, ◌&&◌, Option, none, some, List, [], ◌∷◌, ltb, leb,
  if◌then◌else◌, Result, ok, err,
}
use mathlib.Core.Option
use remote_file_system_in_ru.Base.Bytes.{Bytes, bytes_eq}
use remote_file_system_in_ru.FileSystem.{
  ErrorKind, FilePath, FileSystem, Metadata, OpenOptions, is_dir, is_file,
}
use remote_file_system_in_ru.Protocol.{RemoteMetadata, RenameRequest, file_offset, file_size}
use remote_file_system_in_ru.Server.Error.{StorageError, bad_request, conflict, from_io}
use remote_file_system_in_ru.Server.Http.{Headers, StatusCode}
use remote_file_system_in_ru.Server.PathSecurity.{resolve_non_root_path}
use remote_file_system_in_ru.Server.Metadata.{
  parse_optional_u64_header, entry_metadata_for_path, apply_metadata_headers,
}
use remote_file_system_in_ru.Server.Storage.{
  AppState, World, Handler, Response, Body, ◌>>=◌, ◌>>◌, pure, fail, lift, look, io,
}

abbrev pub respond : {F : FileSystem} → StatusCode → Body → Handler F Response
respond status body = pure (record { status = status; body = body })

-- The parent of a path: none for the root of the disk.
unfoldable pub parent : FilePath → Option FilePath
parent [] = none
parent (part ∷ []) = some []
parent (part ∷ next ∷ rest) = Option.map (◌∷◌ part) (parent (next ∷ rest))

-- `to_path.starts_with(&from_path)`, by whole components.
unfoldable pub starts_with : FilePath → FilePath → Bool
starts_with path [] = true
starts_with [] (q ∷ base) = false
starts_with (p ∷ path) (q ∷ base) = bytes_eq p q && starts_with path base

-- `from_path == to_path`.
unfoldable pub path_eq : FilePath → FilePath → Bool
path_eq [] [] = true
path_eq [] (q ∷ b) = false
path_eq (p ∷ a) [] = false
path_eq (p ∷ a) (q ∷ b) = bytes_eq p q && path_eq a b

module _ {F : FileSystem} where
  abbrev pub require : Bool → StorageError → Handler F (Unit {0})
  require true error = pure tt
  require false error = fail error

module _ (F : FileSystem) where
  -- `if let Some(parent) = path.parent() { fs::create_dir_all(parent)… }`.
  unfoldable pub create_parent : FilePath → Handler F (Unit {0})
  unfolding parent
  create_parent path = elim (parent path) [
    | none ↦ pure tt
    | some directory ↦ io "Could not create parent directory" (F.create_dir_all directory)
  ]

  -- With `replace_if_exists` off, the destination must be missing.
  unfoldable pub free : Result ErrorKind Metadata → Result StorageError (Unit {0})
  free (ok _) = err (conflict "Destination path already exists")
  free (err ErrorKind.not_found) = ok tt
  free (err error) = err (from_io error "Could not inspect destination path")

  unfoldable pub check_destination : Bool → FilePath → Handler F (Unit {0})
  unfolding free
  check_destination true to_path w = (ok tt, w)
  check_destination false to_path w = (free (F.symlink_metadata to_path w.disk), w)

  -- `rename_entry` after the test for equal paths.
  unfoldable pub move_entry : FilePath → FilePath → Bool → Handler F Response
  unfolding check_destination create_parent
  move_entry from_path to_path replace_if_exists = do
    from_metadata ← look "Source path not found" (F.metadata from_path)
    require (not (is_dir from_metadata && starts_with to_path from_path))
        (bad_request "Cannot move a directory inside itself")
    check_destination replace_if_exists to_path
    create_parent to_path
    io "Could not rename path" (F.rename from_path to_path)
    respond StatusCode.ok Body.empty

module _ (F : FileSystem) (app : AppState) where
  unfoldable pub resolve : Bytes → Handler F FilePath
  resolve path w = (resolve_non_root_path F app.root_dir path w.disk, w)

  unfoldable pub get_metadata : Bytes → Handler F Response
  unfolding resolve
  get_metadata path = do
    target_path ← resolve path
    metadata ← entry_metadata_for_path F target_path
    respond StatusCode.ok (Body.json_metadata metadata)

  unfoldable pub delete_path : Bytes → Handler F Response
  unfolding resolve
  delete_path path = do
    target_path ← resolve path
    metadata ← look "Path not found" (F.metadata target_path)
    require (is_file metadata) (bad_request "Path is not a file")
    io "Could not remove file" (F.remove_file target_path)
    respond StatusCode.no_content Body.empty

  unfoldable pub delete_directory : Bytes → Handler F Response
  unfolding resolve
  delete_directory path = do
    target_path ← resolve path
    metadata ← look "Path not found" (F.metadata target_path)
    require (is_dir metadata) (bad_request "Path is not a directory")
    io "Could not remove directory" (F.remove_dir target_path)
    respond StatusCode.no_content Body.empty

  unfoldable pub rename_entry : RenameRequest → Handler F Response
  unfolding resolve
  rename_entry payload = do
    from_path ← resolve payload.from
    to_path ← resolve payload.to
    if path_eq from_path to_path
        then respond StatusCode.ok Body.empty
        else move_entry F from_path to_path payload.replace_if_exists

  module _ (H : Headers) where
    unfoldable pub make_directory : Bytes → H.HeaderMap → Handler F Response
    unfolding resolve
    make_directory path headers = do
      directory_path ← resolve path
      io "Parent directory not found" (F.create_dir directory_path)
      apply_metadata_headers F H directory_path headers
      metadata ← entry_metadata_for_path F directory_path
      respond StatusCode.created (Body.json_metadata metadata)

    unfoldable pub update_metadata : Bytes → H.HeaderMap → Handler F Response
    unfolding resolve
    update_metadata path headers = do
      target_path ← resolve path
      look "Path not found" (F.metadata target_path)
      apply_metadata_headers F H target_path headers
      metadata ← entry_metadata_for_path F target_path
      respond StatusCode.ok (Body.json_metadata metadata)

    -- The rest of `get_file`, where the offset lies within the file.
    unfoldable pub send_range : FilePath → Metadata → ℕ → Option ℕ → Handler F Response
    send_range file_path metadata offset requested_size = do
      opened ← io "File not found" (F.open_file OpenOptions.read file_path)
      file ← io "Could not seek file" (F.seek opened offset)
      let remaining_size = metadata.len - offset
      let response_size =
          Option.get_or (Option.map (λ size. min size remaining_size) requested_size) remaining_size
      bytes ← (λ w. (ok (F.read_at_most file response_size w.disk), w))
      respond StatusCode.ok (Body.stream bytes)

    unfoldable pub get_file : Bytes → H.HeaderMap → Handler F Response
    unfolding resolve send_range
    get_file path headers = do
      file_path ← resolve path
      metadata ← look "File not found" (F.metadata file_path)
      require (is_file metadata) (bad_request "Path is not a file")
      given_offset ← lift (parse_optional_u64_header H headers file_offset)
      requested_size ← lift (parse_optional_u64_header H headers file_size)
      let offset = Option.get_or given_offset 0
      if leb metadata.len offset
          then respond StatusCode.ok Body.empty
          else send_range file_path metadata offset requested_size
