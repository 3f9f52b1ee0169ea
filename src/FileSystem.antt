-- ===== src/FileSystem.antt =====
-- The file system of the host, as `std::fs` and `tokio::fs` offer it on Unix: a parameter of the
-- server and of the client's journal. An operation that changes the disk gives the new state also
-- where it fails.
pub mod Laws
use remote_file_system_in_ru.Base.{ℕ, Bool, true, false, Option, List, Result}
use remote_file_system_in_ru.Base.Bytes.{Bytes}

-- The `io::ErrorKind`s that the repository tells apart; `other` is any further one.
pub data ErrorKind : Type 0 where
  not_found already_exists permission_denied invalid_input not_a_directory : ErrorKind
  is_a_directory directory_not_empty would_block storage_full invalid_data other : ErrorKind

-- A path as its components, from the root of the disk.
abbrev pub FilePath : Type 0
FilePath = List Bytes

pub data FileType : Type 0 where
  file directory symlink special : FileType

-- A `SystemTime` against the Unix epoch.
pub data SystemTime : Type 0 where
  before_epoch : SystemTime
  since_epoch : (seconds nanoseconds : ℕ) → SystemTime

-- The seconds of a `time_t`, a signed number of 64 bits.
pub data TimeT : Type 0 where
  seconds_since seconds_before : ℕ → TimeT

-- `std::fs::Metadata`; `modified` is none where the platform has no such time.
pub record Metadata : Type 0 where
  pub file_type : FileType
  pub len : ℕ
  pub modified : Option SystemTime
  pub mode : ℕ
  pub uid : ℕ
  pub gid : ℕ

abbrev pub is_dir : Metadata → Bool
is_dir m = elim m.file_type [ file ↦ false | directory ↦ true | symlink ↦ false | special ↦ false ]

abbrev pub is_file : Metadata → Bool
is_file m = elim m.file_type [ file ↦ true | directory ↦ false | symlink ↦ false | special ↦ false ]

abbrev pub is_symlink : Metadata → Bool
is_symlink m = elim m.file_type [
  | file ↦ false
  | directory ↦ false
  | symlink ↦ true
  | special ↦ false
]

-- The ways in which the repository opens files: read only; read and write; read and write, made
-- if missing; write, and only if new.
pub data OpenOptions : Type 0 where
  read read_write create create_new : OpenOptions

pub record FileSystem : Type 1 where
  pub State : Type 0
  -- An open file, with its position.
  pub File : Type 0
  pub metadata : FilePath → State → Result ErrorKind Metadata
  pub symlink_metadata : FilePath → State → Result ErrorKind Metadata
  -- The names in a directory.
  pub read_dir : FilePath → State → Result ErrorKind (List Bytes)
  pub create_dir : FilePath → State → Result ErrorKind (Unit {0}) × State
  pub create_dir_all : FilePath → State → Result ErrorKind (Unit {0}) × State
  pub remove_file : FilePath → State → Result ErrorKind (Unit {0}) × State
  pub remove_dir : FilePath → State → Result ErrorKind (Unit {0}) × State
  pub rename : FilePath → FilePath → State → Result ErrorKind (Unit {0}) × State
  pub hard_link : FilePath → FilePath → State → Result ErrorKind (Unit {0}) × State
  pub set_mode : FilePath → ℕ → State → Result ErrorKind (Unit {0}) × State
  -- `chown`, where none keeps the owner or the group.
  pub chown : FilePath → Option ℕ → Option ℕ → State → Result ErrorKind (Unit {0}) × State
  -- `utimensat` with the time of modification in seconds; the time of access is kept.
  pub set_modified : FilePath → TimeT → State → Result ErrorKind (Unit {0}) × State
  pub open_file : OpenOptions → FilePath → State → Result ErrorKind File × State
  pub seek : File → ℕ → State → Result ErrorKind File × State
  pub write_all : File → Bytes → State → Result ErrorKind File × State
  -- The bytes from the position on, at most as many as given.
  pub read_at_most : File → ℕ → State → Result ErrorKind Bytes
  -- `read_exact`: as many bytes as given, and the file open behind them; fewer bytes are an error.
  pub read_exact : File → ℕ → State → Result ErrorKind (Bytes × File)
  pub set_len : File → ℕ → State → Result ErrorKind (Unit {0}) × State
  -- `fs::read` of a whole file, `fs::copy` and `fs::remove_dir_all`.
  pub read_file : FilePath → State → Result ErrorKind Bytes
  pub copy : FilePath → FilePath → State → Result ErrorKind (Unit {0}) × State
  pub remove_dir_all : FilePath → State → Result ErrorKind (Unit {0}) × State
  -- `File::try_lock`.
  pub try_lock : File → State → Result ErrorKind (Unit {0}) × State
  pub sync_all : File → State → Result ErrorKind (Unit {0}) × State
