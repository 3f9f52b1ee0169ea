-- ===== src/Protocol.antt =====
-- `protocol/src/lib.rs`: the wire types and header names that client and server share. A field of
-- text holds the bytes of the JSON string.
use remote_file_system_in_ru.Base.{ℕ, Bool, true, Option, none, some}
use remote_file_system_in_ru.Base.Bytes.{Bytes, codes}

abbrev pub file_offset : Bytes
file_offset = codes "X-File-Offset"

abbrev pub file_size : Bytes
file_size = codes "X-File-Size"

abbrev pub file_truncate : Bytes
file_truncate = codes "X-File-Truncate"

abbrev pub file_mode : Bytes
file_mode = codes "X-File-Mode"

abbrev pub file_uid : Bytes
file_uid = codes "X-File-Uid"

abbrev pub file_gid : Bytes
file_gid = codes "X-File-Gid"

abbrev pub file_mtime : Bytes
file_mtime = codes "X-File-Mtime"

pub record DirectoryEntry : Type 0 where
  pub name : Bytes
  pub type_ : Bytes
  pub size : ℕ
  pub modified_at : Bytes
  pub mode : Option ℕ
  pub uid : Option ℕ
  pub gid : Option ℕ

pub record RemoteMetadata : Type 0 where
  pub type_ : Bytes
  pub size : ℕ
  pub modified_at : Bytes
  pub mode : Option ℕ
  pub uid : Option ℕ
  pub gid : Option ℕ

pub record RenameRequest : Type 0 where
  pub from : Bytes
  pub to : Bytes
  pub replace_if_exists : Bool

abbrev pub replace_if_exists_by_default : Bool
replace_if_exists_by_default = true

-- What the derived `Deserialize` makes of the two texts and of the optional third field.
unfoldable pub rename_request : Bytes → Bytes → Option Bool → RenameRequest
rename_request from to none = record {
  from = from;
  to = to;
  replace_if_exists = replace_if_exists_by_default;
}
rename_request from to (some replace) = record { from = from; to = to; replace_if_exists = replace }
