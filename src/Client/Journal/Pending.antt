-- ===== src/Client/Journal/Pending.antt =====
-- `PendingFile`: a new file that waits for its upload. An operation on one changes the disk and the
-- file's own state. Locks are left out: an operation runs alone here, as its `io_lock` makes it.
pub mod Busy
use mathlib.Core.Option
use remote_file_system_in_ru.Base.{
  ℕ, String, ◌+◌, Bool, true, false, Option, none, some, List, [], ◌∷◌, ◌++◌, ltb, leb, ◌==◌,
  Result, ok, err, ok_or, is_ok, if◌then◌else◌,
}
use remote_file_system_in_ru.Base.Bytes.{Bytes, codes}
use remote_file_system_in_ru.Base.Effect.{Effect, continue, ◌>>=◌, ◌>>◌, pure, fail, lift, ignore}
use remote_file_system_in_ru.FileSystem.{
  FilePath, FileSystem, ErrorKind, OpenOptions, SystemTime, before_epoch, since_epoch, Metadata,
}
use remote_file_system_in_ru.Protocol.{RemoteMetadata}
use remote_file_system_in_ru.Text.Radix.{format, u64_max}
use remote_file_system_in_ru.Client.Journal.{
  IoError, custom, PendingManifest, ManifestCodec, UploadState, idle, uploading, committed, failed,
  discarded, DataVersion, PendingFile, PendingFileMetadata, UploadSnapshot, OnDisk, io, look,
}
use remote_file_system_in_ru.Client.Journal.Names.{
  manifest_file_name, staging_prefix, path_join, data_path, commit_path,
}
use remote_file_system_in_ru.Client.Journal.Disk.{
  sync_directory, create_commit_marker, committed_generations, maximum, remove_noncurrent_versions,
}

-- A file of the journal with the disk.
pub record Held (F : FileSystem) : Type 0 where
  pub disk : F.State
  pub pending : PendingFile

module _ (F : FileSystem) where
  -- The files of a new entry, in the staging directory.
  unfoldable pub fill_staging : ManifestCodec → FilePath → PendingManifest → OnDisk F (Unit {0})
  unfolding sync_directory
  fill_staging codec staging_directory manifest = do
    data_file ← io F (F.open_file OpenOptions.create_new (data_path staging_directory 0))
    io F (F.sync_all data_file)
    manifest_file ←
        io F (F.open_file OpenOptions.create_new (path_join staging_directory manifest_file_name))
    written ← io F (F.write_all manifest_file (codec.to_vec manifest))
    io F (F.sync_all written)
    sync_directory F staging_directory

  -- On an error the two directories go, whether they are there or not.
  unfoldable pub clean_up_after {ℓ} :
      {A : Type ℓ} → FilePath → FilePath → FilePath → IoError → OnDisk F A
  clean_up_after root staging_directory directory error = do
    ignore (io F (F.remove_dir_all staging_directory))
    ignore (io F (F.remove_dir_all directory))
    ignore (sync_directory F root)
    fail error

  abbrev pub clean_up {ℓ} :
      {A : Type ℓ} → FilePath → FilePath → FilePath → Result IoError A → OnDisk F A
  clean_up root staging_directory directory (ok a) s = (ok a, s)
  clean_up root staging_directory directory (err error) s =
      clean_up_after root staging_directory directory error s

  unfoldable pub attempt_create :
      ManifestCodec → FilePath → FilePath → FilePath → PendingManifest → OnDisk F (Unit {0})
  unfolding fill_staging sync_directory
  attempt_create codec root staging_directory directory manifest = do
    fill_staging codec staging_directory manifest
    io F (F.rename staging_directory directory)
    sync_directory F root

  unfoldable pub create : ManifestCodec → FilePath → Bytes → Bytes → ℕ → OnDisk F PendingFile
  unfolding attempt_create
  create codec root id path mode = do
    let directory = path_join root id
    let staging_directory = path_join root (staging_prefix ++ id)
    let manifest : PendingManifest = record { path = path; mode = mode }
    io F (F.create_dir staging_directory)
    (λ s.
        let (r, s') = attempt_create codec root staging_directory directory manifest s in
        clean_up root staging_directory directory r s')
    pure (record {
      directory = directory;
      manifest = manifest;
      current = record { generation = 0; path = data_path directory 0 };
      state = idle;
    })

  unfoldable pub load : ManifestCodec → FilePath → OnDisk F PendingFile
  unfolding maximum committed_generations remove_noncurrent_versions
  load codec directory = do
    text ← look F (F.read_file (path_join directory manifest_file_name))
    manifest ← lift (ok_or (codec.from_slice text) (custom ErrorKind.other "invalid manifest"))
    names ← look F (F.read_dir directory)
    generations ← (λ s. (ok (committed_generations F directory s names), s))
    generation ← lift (
        ok_or (maximum generations)
          (custom ErrorKind.invalid_data "journal has no fully committed data generation"))
    remove_noncurrent_versions F directory generation
    pure (record {
      directory = directory;
      manifest = manifest;
      current = record { generation = generation; path = data_path directory generation };
      state = idle;
    })

-- An operation on a file of the journal.
abbrev pub OnPending {ℓ} : FileSystem → Type ℓ → Type ℓ
OnPending F A = Effect (Held F) IoError A

abbrev pub require_idle : UploadState → Result IoError (Unit {0})
require_idle idle = ok tt
require_idle (failed error) = ok tt
require_idle uploading = err (custom ErrorKind.would_block "pending file is being uploaded")
require_idle (committed metadata) =
    err (custom ErrorKind.already_exists "pending file has already been committed")
require_idle discarded = err (custom ErrorKind.not_found "pending file was discarded")

abbrev pub is_committed_state : UploadState → Bool
is_committed_state (committed metadata) = true
is_committed_state idle = false
is_committed_state uploading = false
is_committed_state (failed error) = false
is_committed_state discarded = false

unfoldable pub is_committed : PendingFile → Bool
is_committed pending = is_committed_state pending.state

abbrev pub committed_metadata_of : UploadState → Option RemoteMetadata
committed_metadata_of (committed metadata) = some metadata
committed_metadata_of idle = none
committed_metadata_of uploading = none
committed_metadata_of (failed error) = none
committed_metadata_of discarded = none

unfoldable pub committed_metadata : PendingFile → Option RemoteMetadata
committed_metadata pending = committed_metadata_of pending.state

-- What a state lets the loop of `wait_for_upload` do: answer, or wait on.
unfoldable pub upload_outcome : UploadState → Option (Result IoError RemoteMetadata)
upload_outcome (committed metadata) = some (ok metadata)
upload_outcome (failed text) = some (err (custom ErrorKind.other text))
upload_outcome discarded = some (err (custom ErrorKind.not_found "pending file was discarded"))
upload_outcome idle = some (err (custom ErrorKind.would_block "pending file has not been queued"))
upload_outcome uploading = none

-- `begin_upload` answers none in these states.
abbrev pub is_busy : UploadState → Bool
is_busy uploading = true
is_busy (committed metadata) = true
is_busy discarded = true
is_busy idle = false
is_busy (failed error) = false

abbrev pub is_uploading : UploadState → Bool
is_uploading uploading = true
is_uploading idle = false
is_uploading (committed metadata) = false
is_uploading (failed error) = false
is_uploading discarded = false

unfoldable pub finish_success : RemoteMetadata → PendingFile → PendingFile
finish_success metadata pending = record pending { state = committed metadata }

unfoldable pub finish_failure : String → PendingFile → PendingFile
finish_failure text pending = record pending { state = failed text }

-- Seconds since the epoch, as text.
abbrev pub seconds_text : Option SystemTime → Bytes
seconds_text none = codes "0"
seconds_text (some before_epoch) = codes "0"
seconds_text (some (since_epoch seconds nanoseconds)) = format 10 seconds

module _ {F : FileSystem} where
  unfoldable pub on_disk {ℓ} : {A : Type ℓ} → OnDisk F A → OnPending F A
  on_disk m h = let (r, s) = m h.disk in (r, record h { disk = s })

  unfoldable pub of_pending {ℓ} : {A : Type ℓ} → (PendingFile → A) → OnPending F A
  of_pending f h = (ok (f h.pending), h)

  unfoldable pub change : (PendingFile → PendingFile) → OnPending F (Unit {0})
  change f h = (ok tt, record h { pending = f h.pending })

module _ (F : FileSystem) where
  unfoldable pub metadata : OnPending F PendingFileMetadata
  unfolding on_disk look
  metadata = do
    pending ← of_pending (λ p. p)
    m ← on_disk (look F (F.metadata pending.current.path))
    pure (record {
      size = m.len;
      modified_at = seconds_text m.modified;
      mode = pending.manifest.mode;
    })

  -- `create_commit_marker` behind the mutation of the copy, and what is undone where either fails.
  unfoldable pub mutate_copy : FilePath → ℕ → (F.File → OnDisk F F.File) → OnDisk F (Unit {0})
  unfolding create_commit_marker
  mutate_copy directory next_generation mutation = do
    next ← io F (F.open_file OpenOptions.read_write (data_path directory next_generation))
    mutated ← mutation next
    io F (F.sync_all mutated)
    create_commit_marker F directory next_generation

  unfoldable pub undo_after : FilePath → ℕ → IoError → OnDisk F (Unit {0})
  undo_after directory next_generation error = do
    ignore (io F (F.remove_file (data_path directory next_generation)))
    ignore (io F (F.remove_file (commit_path directory next_generation)))
    fail error

  abbrev pub undo_copy : FilePath → ℕ → Result IoError (Unit {0}) → OnDisk F (Unit {0})
  undo_copy directory next_generation (ok a) s = (ok a, s)
  undo_copy directory next_generation (err error) s = undo_after directory next_generation error s

  -- The new version on the disk: a copy of the current one, mutated, synced and marked.
  unfoldable pub write_version :
      FilePath → FilePath → ℕ → (F.File → OnDisk F F.File) → OnDisk F (Unit {0})
  unfolding mutate_copy
  write_version directory current_path next_generation mutation = do
    io F (F.copy current_path (data_path directory next_generation))
    (λ s.
        let (r, s') = mutate_copy directory next_generation mutation s in
        undo_copy directory next_generation r s')

  -- `checked_add(1)` of a `u64`.
  abbrev pub next_of : ℕ → Result IoError ℕ
  next_of generation =
      if ltb generation u64_max
      then ok (generation + 1)
      else err (custom ErrorKind.invalid_data "journal generation overflow")

  -- The old version is removed; what fails there is passed over.
  unfoldable pub retire : FilePath → DataVersion → OnDisk F (Unit {0})
  unfolding sync_directory
  retire directory old = do
    ignore (io F (F.remove_file old.path))
    ignore (io F (F.remove_file (commit_path directory old.generation)))
    sync_directory F directory

  unfoldable pub commit_next_version : (F.File → OnDisk F F.File) → OnPending F (Unit {0})
  unfolding on_disk write_version retire change of_pending
  commit_next_version mutation = do
    pending ← of_pending (λ p. p)
    next_generation ← lift (next_of pending.current.generation)
    on_disk (write_version pending.directory pending.current.path next_generation mutation)
    change (λ p. record p {
      current = record {
        generation = next_generation;
        path = data_path pending.directory next_generation;
      };
    })
    on_disk (retire pending.directory pending.current)

  -- The mutations of `write_at` and `resize`.
  unfoldable pub write_bytes : Bytes → ℕ → F.File → OnDisk F F.File
  write_bytes bytes offset opened = do
    file ← io F (F.seek opened offset)
    io F (F.write_all file bytes)

  unfoldable pub set_size : ℕ → F.File → OnDisk F F.File
  set_size size file = do io F (F.set_len file size); pure file

  -- The current version is changed in place where no byte of it is lost.
  unfoldable pub change_in_place : FilePath → (F.File → OnDisk F F.File) → OnDisk F (Unit {0})
  change_in_place current_path mutation = do
    opened ← io F (F.open_file OpenOptions.read_write current_path)
    file ← mutation opened
    io F (F.sync_all file)

  unfoldable pub change_version : ℕ → (F.File → OnDisk F F.File) → OnPending F (Unit {0})
  unfolding on_disk of_pending change_in_place commit_next_version
  change_version end mutation = do
    pending ← of_pending (λ p. p)
    lift (require_idle pending.state)
    m ← on_disk (look F (F.metadata pending.current.path))
    if leb m.len end
        then on_disk (change_in_place pending.current.path mutation)
        else commit_next_version mutation

  unfoldable pub write_at : Bytes → ℕ → OnPending F (Unit {0})
  unfolding change_version write_bytes
  write_at bytes offset = change_version offset (write_bytes bytes offset)

  unfoldable pub resize : ℕ → OnPending F (Unit {0})
  unfolding change_version set_size
  resize size = change_version size (set_size size)

  unfoldable pub read_at : ℕ → ℕ → OnPending F Bytes
  unfolding on_disk of_pending is_committed
  read_at size offset = do
    pending ← of_pending (λ p. p)
    if is_committed pending
        then fail (custom ErrorKind.already_exists "pending file has already been committed")
        else (do
          opened ← on_disk (io F (F.open_file OpenOptions.read pending.current.path))
          file ← on_disk (io F (F.seek opened offset))
          on_disk (look F (F.read_at_most file size)))

  -- `now` stands for `SystemTime::now()`, where the file has no time of modification.
  unfoldable pub begin_upload : SystemTime → OnPending F (Option UploadSnapshot)
  unfolding on_disk of_pending change
  begin_upload now = do
    pending ← of_pending (λ p. p)
    if is_busy pending.state then pure none else (do
      m ← on_disk (look F (F.metadata pending.current.path))
      change (λ p. record p { state = uploading })
      pure (
          some (record {
            path = pending.manifest.path;
            mode = pending.manifest.mode;
            modified_at = Option.get_or m.modified now;
            file_path = pending.current.path;
          })))

  unfoldable pub discard : OnPending F (Unit {0})
  unfolding on_disk of_pending change
  discard = do
    pending ← of_pending (λ p. p)
    if is_uploading pending.state
        then fail (custom ErrorKind.would_block "cannot discard a file while it is being uploaded")
        else (do
          change (λ p. record p { state = discarded })
          on_disk (io F (F.remove_dir_all pending.directory)))
