-- ===== src/Client/Journal.antt =====
-- `client/src/writeback/journal.rs`: the durable journal of a new file. Its data stands in a file
-- for each generation, and a marker says that a generation is complete.
pub mod Names
pub mod Disk
pub mod Pending
use remote_file_system_in_ru.Base.{ℕ, ◌≡◌, some, String, Option, Result, ok, err, map_err}
use remote_file_system_in_ru.Base.Bytes.{Bytes}
use remote_file_system_in_ru.Base.Effect.{Effect}
use remote_file_system_in_ru.FileSystem.{ErrorKind, FilePath, FileSystem, SystemTime}
use remote_file_system_in_ru.Protocol.{RemoteMetadata}

-- `io::Error`: one of the system, or one made with a message.
pub data IoError : Type 0 where
  system : ErrorKind → IoError
  custom : ErrorKind → String → IoError

-- `error.kind()`.
abbrev pub kind : IoError → ErrorKind
kind (system k) = k
kind (custom k message) = k

pub record PendingManifest : Type 0 where
  pub path : Bytes
  pub mode : ℕ

-- `serde_json` for manifests: what is written is read back.
pub record ManifestCodec : Type 0 where
  pub to_vec : PendingManifest → Bytes
  pub from_slice : Bytes → Option PendingManifest
  pub reads_back : (m : PendingManifest) → from_slice (to_vec m) ≡ some m

-- A failed upload keeps the text of its error.
pub data UploadState : Type 0 where
  idle uploading : UploadState
  committed : RemoteMetadata → UploadState
  failed : String → UploadState
  discarded : UploadState

pub record DataVersion : Type 0 where
  pub generation : ℕ
  pub path : FilePath

pub record PendingFileMetadata : Type 0 where
  pub size : ℕ
  pub modified_at : Bytes
  pub mode : ℕ

pub record UploadSnapshot : Type 0 where
  pub path : Bytes
  pub mode : ℕ
  pub modified_at : SystemTime
  pub file_path : FilePath

pub record PendingFile : Type 0 where
  pub directory : FilePath
  pub manifest : PendingManifest
  pub current : DataVersion
  pub state : UploadState

-- An operation on the disk alone.
abbrev pub OnDisk {ℓ} : FileSystem → Type ℓ → Type ℓ
OnDisk F A = Effect F.State IoError A

-- An operation of the file system, with its error as an `io::Error`.
unfoldable pub io {ℓ} :
    (F : FileSystem) {A : Type ℓ} → (F.State → Result ErrorKind A × F.State) → OnDisk F A
io F act s = let (r, s') = act s in (map_err system r, s')

unfoldable pub look {ℓ} :
    (F : FileSystem) {A : Type ℓ} → (F.State → Result ErrorKind A) → OnDisk F A
look F read s = (map_err system (read s), s)
