-- ===== src/Client/Fuse/Attributes.antt =====
-- Attributes from what the server says, the mode of a new entry, and error numbers.
pub mod Errors
use Prim.Native.Nat.{bit_and}
use mathlib.Core.Option
use remote_file_system_in_ru.Base.{
  ℕ, ◌+◌, ◌-◌, ◌/◌, ◌%◌, Bool, Option, none, some, List, [], ◌∷◌, ◌||◌, ◌==◌, if◌then◌else◌,
}
use remote_file_system_in_ru.Base.Bytes.{Bytes, codes, bytes_eq}
use remote_file_system_in_ru.FileSystem.{ErrorKind, SystemTime, since_epoch}
use remote_file_system_in_ru.Protocol.{DirectoryEntry, RemoteMetadata}
use remote_file_system_in_ru.Text.Radix.{from_str_radix, u32_max, u64_max}
use remote_file_system_in_ru.Text.Slashes.{file_name}
use remote_file_system_in_ru.Client.RemotePath.{remote_or_mounting_user}
use remote_file_system_in_ru.Client.Journal.{IoError, PendingFile, PendingFileMetadata}
use remote_file_system_in_ru.Client.Journal
use remote_file_system_in_ru.Client.Api.{HttpError, status}
use remote_file_system_in_ru.Client.Fuse.{
  Errno, einval, eacces, enoent, eexist, eio, enotempty, ebusy, enospc, FileKind, directory,
  regular_file, FileAttr, MountSettings, TimeOrNow, specific_time, current_time,
}

abbrev pub nlink_of : FileKind → ℕ
nlink_of directory = 2
nlink_of regular_file = 1

unfoldable pub create_file_attr : ℕ → FileKind → ℕ → ℕ → ℕ → ℕ → SystemTime → FileAttr
create_file_attr ino kind size perm uid gid modified_at = record {
  ino = ino;
  size = size;
  blocks = (size + 511) / 512;
  modified_at = modified_at;
  kind = kind;
  perm = perm;
  nlink = nlink_of kind;
  uid = uid;
  gid = gid;
  rdev = 0;
  flags = 0;
  blksize = 512;
}

abbrev pub default_perm : FileKind → ℕ
default_perm directory = 0o755
default_perm regular_file = 0o644

-- `UNIX_EPOCH + Duration::from_secs(seconds)`, for a time that the platform can hold.
unfoldable pub system_time_from_unix_seconds : Bytes → SystemTime
unfolding from_str_radix
system_time_from_unix_seconds value =
    since_epoch (Option.get_or (from_str_radix 10 u64_max value) 0) 0

unfoldable pub kind_from_type : Bytes → FileKind
unfolding bytes_eq
kind_from_type type_ = if bytes_eq type_ (codes "directory") then directory else regular_file

abbrev pub perm_of : Option ℕ → FileKind → ℕ
perm_of mode kind = Option.get_or (Option.map (λ m. m % 4096) mode) (default_perm kind)

unfoldable pub attr_from_directory_entry : MountSettings → ℕ → DirectoryEntry → FileAttr
unfolding create_file_attr kind_from_type remote_or_mounting_user system_time_from_unix_seconds
attr_from_directory_entry mount ino entry =
    let kind = kind_from_type entry.type_ in
    create_file_attr ino kind entry.size (perm_of entry.mode kind)
      (remote_or_mounting_user entry.uid mount.uid) (remote_or_mounting_user entry.gid mount.gid)
      (system_time_from_unix_seconds entry.modified_at)

unfoldable pub attr_from_remote_metadata : MountSettings → ℕ → RemoteMetadata → FileAttr
unfolding create_file_attr kind_from_type remote_or_mounting_user system_time_from_unix_seconds
attr_from_remote_metadata mount ino metadata =
    let kind = kind_from_type metadata.type_ in
    create_file_attr ino kind metadata.size (perm_of metadata.mode kind)
      (remote_or_mounting_user metadata.uid mount.uid)
      (remote_or_mounting_user metadata.gid mount.gid)
      (system_time_from_unix_seconds metadata.modified_at)

-- `attr_from_pending` and `directory_entry_from_pending`, of the metadata that the journal gives.
unfoldable pub attr_of_pending : MountSettings → ℕ → PendingFileMetadata → FileAttr
unfolding create_file_attr system_time_from_unix_seconds
attr_of_pending mount ino metadata =
    create_file_attr ino regular_file metadata.size (metadata.mode % 4096) mount.uid mount.gid
      (system_time_from_unix_seconds metadata.modified_at)

unfoldable pub entry_of_pending : PendingFile → PendingFileMetadata → DirectoryEntry
unfolding file_name
entry_of_pending pending metadata = record {
  name = file_name pending.manifest.path;
  type_ = codes "file";
  size = metadata.size;
  modified_at = metadata.modified_at;
  mode = some metadata.mode;
  uid = none;
  gid = none;
}

-- `(mode & !umask) & 0o7777`, or the fallback where that is nothing.
unfoldable pub apply_umask : ℕ → ℕ → ℕ → ℕ
apply_umask mode umask fallback =
    let effective_mode = bit_and mode (u32_max - umask) % 4096 in
    if effective_mode == 0 then fallback else effective_mode

unfoldable pub time_or_now : SystemTime → TimeOrNow → SystemTime
time_or_now now (specific_time time) = time
time_or_now now current_time = now

abbrev pub errno_of_code : ℕ → Errno
errno_of_code code =
    if code == 400
    then einval
    else if code == 401 || code == 403
    then eacces
    else if code == 404
    then enoent
    else if code == 409
    then eexist
    else eio

unfoldable pub errno_from_api_error : HttpError → Errno
errno_from_api_error error = elim (status error) [ none ↦ eio | some code ↦ errno_of_code code ]

unfoldable pub errno_from_rmdir_error : HttpError → Errno
unfolding errno_from_api_error
errno_from_rmdir_error error = elim (status error) [
  | none ↦ errno_from_api_error error
  | some code ↦ if code == 409 then enotempty else errno_from_api_error error
]

abbrev pub errno_of_kind : ErrorKind → Errno
errno_of_kind ErrorKind.not_found = enoent
errno_of_kind ErrorKind.already_exists = eexist
errno_of_kind ErrorKind.permission_denied = eacces
errno_of_kind ErrorKind.would_block = ebusy
errno_of_kind ErrorKind.storage_full = enospc
errno_of_kind kind = eio

unfoldable pub errno_from_io_error : IoError → Errno
errno_from_io_error error = errno_of_kind (Journal.kind error)
