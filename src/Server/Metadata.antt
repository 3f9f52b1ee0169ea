-- ===== src/Server/Metadata.antt =====
-- `server/src/metadata.rs` on Unix: metadata of the disk as wire data, and the metadata headers of
-- a request.
pub mod Numbers
use mathlib.Core.Option
use remote_file_system_in_ru.Base.{
  ℕ, ◌%◌, ◌-◌, ◌^◌, ltb, ◌||◌, Option, none, some, leb, ◌==◌, any, is_some, if◌then◌else◌, Result,
  ok, err, ok_or,
}
use remote_file_system_in_ru.Base.Bytes.{Bytes, codes}
use remote_file_system_in_ru.Text.Radix.{format, from_str_radix, u32_max, u64_max}
use remote_file_system_in_ru.FileSystem.{
  ErrorKind, FilePath, FileSystem, TimeT, seconds_since, seconds_before, SystemTime, before_epoch,
  since_epoch, Metadata, is_dir, is_file,
}
use remote_file_system_in_ru.Protocol.{
  DirectoryEntry, RemoteMetadata, file_mode, file_uid, file_gid, file_mtime,
}
use remote_file_system_in_ru.Server.Error.{StorageError, bad_request}
use remote_file_system_in_ru.Server.Http.{Headers}
use remote_file_system_in_ru.Server.Storage.{Handler, ◌>>=◌, ◌>>◌, pure, lift, look, io}

unfoldable pub format_modified_at : SystemTime → Bytes
format_modified_at before_epoch = codes "0"
format_modified_at (since_epoch seconds nanoseconds) = format 10 seconds

-- `metadata.mode() & 0o7777`.
unfoldable pub metadata_mode : Metadata → ℕ
metadata_mode metadata = metadata.mode % 4096

unfoldable pub entry_type : Metadata → Option Bytes
entry_type metadata =
    if is_dir metadata
    then some (codes "directory")
    else if is_file metadata
    then some (codes "file")
    else none

unfoldable pub entry_metadata_from_metadata : Metadata → Option RemoteMetadata
unfolding entry_type metadata_mode format_modified_at
entry_metadata_from_metadata metadata =
    Option.map
      (λ type_. record {
        type_ = type_;
        size = if is_file metadata then metadata.len else 0;
        modified_at = Option.get_or (Option.map format_modified_at metadata.modified) (codes "0");
        mode = some (metadata_mode metadata);
        uid = some metadata.uid;
        gid = some metadata.gid;
      })
      (entry_type metadata)

unfoldable pub directory_entry_from_metadata : Bytes → Metadata → Option DirectoryEntry
unfolding entry_metadata_from_metadata
directory_entry_from_metadata name metadata =
    Option.map
      (λ entry. record {
        name = name;
        type_ = entry.type_;
        size = entry.size;
        modified_at = entry.modified_at;
        mode = entry.mode;
        uid = entry.uid;
        gid = entry.gid;
      })
      (entry_metadata_from_metadata metadata)

-- `headers.get(name).map(…).transpose()`: a header that is there must read.
unfoldable pub parse_optional {ℓ} :
    (H : Headers) {A : Type ℓ}
    → StorageError
    → (Bytes → Option A)
    → H.HeaderMap
    → Bytes
    → Result StorageError (Option A)
parse_optional H error parse headers name = elim (H.get headers name) [
  | none ↦ ok none
  | some value ↦ elim (Option.bind (H.to_str value) parse) [
    | none ↦ err error
    | some a ↦ ok (some a)
  ]
]

-- `text.parse::<u64>()`, `text.parse::<u32>()`, and an octal mode of at most twelve bits.
abbrev pub parse_u64 : Bytes → Option ℕ
parse_u64 = from_str_radix 10 u64_max

abbrev pub parse_u32 : Bytes → Option ℕ
parse_u32 = from_str_radix 10 u32_max

unfoldable pub parse_mode : Bytes → Option ℕ
parse_mode text = elim (from_str_radix 8 u32_max text) [
  | none ↦ none
  | some mode ↦ if leb mode 0o7777 then some mode else none
]

unfoldable pub parse_optional_u64_header :
    (H : Headers) → H.HeaderMap → Bytes → Result StorageError (Option ℕ)
unfolding parse_optional
parse_optional_u64_header H = parse_optional H (bad_request "Invalid numeric header") parse_u64

unfoldable pub parse_optional_u32_header :
    (H : Headers) → H.HeaderMap → Bytes → Result StorageError (Option ℕ)
unfolding parse_optional
parse_optional_u32_header H = parse_optional H (bad_request "Invalid numeric header") parse_u32

unfoldable pub parse_optional_mode_header :
    (H : Headers) → H.HeaderMap → Result StorageError (Option ℕ)
unfolding parse_optional parse_mode
parse_optional_mode_header H headers =
    parse_optional H (bad_request "Invalid file mode") parse_mode headers file_mode

-- `path_to_cstring` fails where the path holds a NUL byte.
unfoldable pub path_to_cstring : FilePath → Result ErrorKind FilePath
path_to_cstring path =
    if any (λ part. any (λ c. c == 0) part) path then err ErrorKind.invalid_input else ok path

-- `modified_at as libc::time_t`: a `u64` above the largest `i64` is read as a negative number.
unfoldable pub as_time_t : ℕ → TimeT
as_time_t n = if ltb n (2 ^ 63) then seconds_since n else seconds_before (2 ^ 64 - n)

module _ (F : FileSystem) where
  unfoldable pub entry_metadata_for_path : FilePath → Handler F RemoteMetadata
  entry_metadata_for_path path = do
    metadata ← look "Path not found" (F.metadata path)
    lift (ok_or (entry_metadata_from_metadata metadata) (bad_request "Unsupported file type"))

  -- `permissions.set_mode(mode & 0o7777)`.
  unfoldable pub apply_mode : FilePath → ℕ → Handler F (Unit {0})
  apply_mode path mode = do
    look "Path not found" (F.metadata path)
    io "Could not update permissions" (F.set_mode path (mode % 4096))

  unfoldable pub apply_owner : FilePath → Option ℕ → Option ℕ → Handler F (Unit {0})
  unfolding path_to_cstring
  apply_owner path uid gid =
      if is_some uid || is_some gid
      then (do
        c_path ← look "Invalid path" (λ _. path_to_cstring path)
        io "Could not update owner" (F.chown c_path uid gid))
      else pure tt

  unfoldable pub apply_modified_time : FilePath → ℕ → Handler F (Unit {0})
  unfolding path_to_cstring as_time_t
  apply_modified_time path modified_at = do
    c_path ← look "Invalid path" (λ _. path_to_cstring path)
    look "Path not found" (F.metadata path)
    io "Could not update modification time" (F.set_modified c_path (as_time_t modified_at))

  abbrev pub when_some : Option ℕ → (ℕ → Handler F (Unit {0})) → Handler F (Unit {0})
  when_some none act = pure tt
  when_some (some value) act = act value

  module _ (H : Headers) where
    unfoldable pub apply_metadata_headers : FilePath → H.HeaderMap → Handler F (Unit {0})
    unfolding apply_mode apply_owner apply_modified_time
    apply_metadata_headers path headers = do
      mode ← lift (parse_optional_mode_header H headers)
      when_some mode (apply_mode path)
      uid ← lift (parse_optional_u32_header H headers file_uid)
      gid ← lift (parse_optional_u32_header H headers file_gid)
      apply_owner path uid gid
      modified_at ← lift (parse_optional_u64_header H headers file_mtime)
      when_some modified_at (apply_modified_time path)
