-- ===== src/Server/Transaction.antt =====
-- `server/src/transaction.rs` on Unix: the atomic commit of a create-only upload.
pub mod Steps
pub mod Begun
pub mod Safety
pub mod Existing
use remote_file_system_in_ru.Base.{
  ℕ, Bool, true, false, Option, none, some, List, [], ◌∷◌, ◌++◌, if◌then◌else◌, Result, ok, err,
}
use remote_file_system_in_ru.Base.Bytes.{Bytes, codes}
use remote_file_system_in_ru.Text.Radix.{format}
use remote_file_system_in_ru.FileSystem.{ErrorKind, FilePath, FileSystem, Metadata, OpenOptions}
use remote_file_system_in_ru.Server.Error.{
  StorageError, bad_request, precondition_failed, request_body, from_io,
}
use remote_file_system_in_ru.Server.Http.{Headers, StatusCode}
use remote_file_system_in_ru.Server.Metadata.{entry_metadata_for_path, apply_metadata_headers}
use remote_file_system_in_ru.Server.Handlers.{parent, respond}
use remote_file_system_in_ru.Server.Storage.{
  AppState, World, Handler, Response, Body, ◌>>=◌, ◌>>◌, pure, fail, lift, look, io,
  next_transaction_id,
}

-- A body as it arrives: its chunks, where none is a failure to read on.
abbrev pub Chunks : Type 0
Chunks = List (Option Bytes)

-- `format!("upload-{}-{transaction_id}.tmp", process::id())`.
unfoldable pub transaction_name : ℕ → ℕ → Bytes
transaction_name process_id transaction_id =
    codes "upload-" ++ format 10 process_id ++ codes "-" ++ format 10 transaction_id ++ codes ".tmp"

module _ (F : FileSystem) where
  -- `let _ = fs::remove_file(&transaction_path).await`, on the way out with an error.
  abbrev pub discard {ℓ} : {A : Type ℓ} → FilePath → Result StorageError A → Handler F A
  discard transaction_path (ok a) w = (ok a, w)
  discard transaction_path (err error) w =
      (err error, record w { disk = (F.remove_file transaction_path w.disk).1 })

  unfoldable pub discard_on_error {ℓ} : {A : Type ℓ} → FilePath → Handler F A → Handler F A
  discard_on_error transaction_path m w = let (r, w') = m w in discard transaction_path r w'

  -- The loop over the chunks of the body.
  unfoldable pub receive : F.File → Chunks → Handler F F.File
  receive transaction_file [] w = (ok transaction_file, w)
  receive transaction_file (none ∷ chunks) w = (err (request_body "Could not read request body"), w)
  receive transaction_file (some chunk ∷ chunks) w =
      let (r, disk) = F.write_all transaction_file chunk w.disk in
      elim r [
        | ok file ↦ receive file chunks (record w { disk = disk })
        | err error ↦
            (err (from_io error "Could not write transaction file"), record w { disk = disk })
      ]

  -- `fs::symlink_metadata` of the destination must find nothing.
  unfoldable pub missing : Result ErrorKind Metadata → Result StorageError (Unit {0})
  missing (ok _) = err (precondition_failed "Destination path already exists")
  missing (err ErrorKind.not_found) = ok tt
  missing (err error) = err (from_io error "Could not inspect destination path")

  unfoldable pub require_missing : FilePath → Handler F (Unit {0})
  unfolding missing
  require_missing file_path w = (missing (F.symlink_metadata file_path w.disk), w)

  unfoldable pub link_error : ErrorKind → StorageError
  link_error ErrorKind.already_exists = precondition_failed "Destination path already exists"
  link_error error = from_io error "Could not commit transaction file"

  unfoldable pub commit_link : FilePath → FilePath → Handler F (Unit {0})
  unfolding link_error
  commit_link transaction_path file_path w =
      let (r, disk) = F.hard_link transaction_path file_path w.disk in
      elim r [
        | ok _ ↦ (ok tt, record w { disk = disk })
        | err error ↦ (err (link_error error), record w { disk = disk })
      ]

  unfoldable pub sync_directory : FilePath → Handler F (Unit {0})
  sync_directory path = do
    directory ← io "Could not sync directory" (F.open_file OpenOptions.read path)
    io "Could not sync directory" (F.sync_all directory)

  -- The transaction file goes; a failure to remove it is only logged.
  unfoldable pub remove_transaction : FilePath → FilePath → Handler F (Unit {0})
  unfolding sync_directory
  remove_transaction transaction_dir transaction_path w =
      let (r, disk) = F.remove_file transaction_path w.disk in
      elim r [
        | ok _ ↦ sync_directory transaction_dir (record w { disk = disk })
        | err error ↦ (ok tt, record w { disk = disk })
      ]

  module _ (H : Headers) where
    -- The body and its metadata, synced, in the transaction file.
    unfoldable pub fill : FilePath → F.File → H.HeaderMap → Chunks → Handler F (Unit {0})
    unfolding receive
    fill transaction_path opened headers chunks = do
      transaction_file ← receive opened chunks
      io "Could not sync transaction file" (F.sync_all transaction_file)
      apply_metadata_headers F H transaction_path headers
      io "Could not sync transaction metadata" (F.sync_all transaction_file)

    -- From the test of the destination to the hard link.
    unfoldable pub publish : FilePath → FilePath → FilePath → Handler F (Unit {0})
    unfolding require_missing commit_link
    publish transaction_path directory file_path = do
      io "Could not create parent directory" (F.create_dir_all directory)
      commit_link transaction_path file_path

    -- After the hard link the file is there, whatever happens.
    unfoldable pub finish : FilePath → FilePath → FilePath → FilePath → Handler F Response
    unfolding sync_directory remove_transaction
    finish transaction_dir transaction_path directory file_path = do
      committed ←
          io "Could not reopen committed file" (F.open_file OpenOptions.read_write file_path)
      io "Could not sync committed file" (F.sync_all committed)
      sync_directory directory
      remove_transaction transaction_dir transaction_path
      metadata ← entry_metadata_for_path F file_path
      respond StatusCode.created (Body.json_metadata metadata)

    -- What follows the creation of the transaction file.
    unfoldable pub commit_upload :
        AppState → FilePath → F.File → FilePath → H.HeaderMap → Chunks → Handler F Response
    unfolding discard_on_error
    commit_upload app transaction_path opened file_path headers chunks = do
      discard_on_error transaction_path (fill transaction_path opened headers chunks)
      discard_on_error transaction_path (require_missing file_path)
      elim (parent file_path) [
        | none ↦ fail (bad_request "Path has no parent directory")
        | some directory ↦ do
          discard_on_error transaction_path (publish transaction_path directory file_path)
          finish app.transaction_dir transaction_path directory file_path
      ]

    -- `state.transaction_dir.join(format!(…))`.
    unfoldable pub transaction_path_of : AppState → ℕ → FilePath
    unfolding transaction_name
    transaction_path_of app transaction_id =
        app.transaction_dir ++ transaction_name app.process_id transaction_id ∷ []

    unfoldable pub create_file_atomically :
        AppState → FilePath → H.HeaderMap → Chunks → Handler F Response
    unfolding commit_upload
    create_file_atomically app file_path headers chunks = do
      transaction_id ← next_transaction_id
      let transaction_path = transaction_path_of app transaction_id
      opened ←
          io "Could not create transaction file"
            (F.open_file OpenOptions.create_new transaction_path)
      commit_upload app transaction_path opened file_path headers chunks
