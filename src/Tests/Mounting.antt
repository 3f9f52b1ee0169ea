-- ===== src/Tests/Mounting.antt =====
-- The theorems on the client at concrete inputs.
use mathlib.Core.Option
use remote_file_system_in_ru.Base.{
  ◌≡◌, ◌≢◌, refl, true, none, some, List, [], ◌∷◌, arith, ok, All, Option-cases, inl, inr,
}
use remote_file_system_in_ru.Base.Bytes.{Bytes, codes, bytes_eq_instance}
use remote_file_system_in_ru.Base.Map
use remote_file_system_in_ru.FileSystem.{since_epoch}
use remote_file_system_in_ru.FileSystem.Laws.{file}
use remote_file_system_in_ru.Protocol.{file_mode, file_uid, file_gid, file_mtime}
use remote_file_system_in_ru.Text.Slashes.{split, trim_matches}
use remote_file_system_in_ru.Server.Http.{plain_headers}
use remote_file_system_in_ru.Server.Auth.{is_authorized}
use remote_file_system_in_ru.Server.Metadata.{
  parse_optional_mode_header, parse_optional_u32_header, parse_optional_u64_header,
}
use remote_file_system_in_ru.Client.Journal.{UploadState}
use remote_file_system_in_ru.Client.Journal.Names.{
  data_name, commit_name, parse_commit_generation, parse_data_generation,
}
use remote_file_system_in_ru.Client.Journal.Names.RoundTrip.{parse-names}
use remote_file_system_in_ru.Client.Journal.Pending.{Held, is_busy, write_at, resize, begin_upload}
use remote_file_system_in_ru.Client.Journal.Pending.Busy.{Refuses, busy-Refuses}
use remote_file_system_in_ru.Client.Api.{Method, RequestBody, Connection}
use remote_file_system_in_ru.Client.Api.Url.{
  encode_api_path, trim, drop_spaces, unix_seconds_from_system_time,
}
use remote_file_system_in_ru.Client.Api.Encoding.{
  decode_all, IsText, is_url_byte, decode_all-encode_api_path,
}
use remote_file_system_in_ru.Client.Api.Wire.{
  Arrives, sent_headers, parse-add_optional_metadata_headers, request_to-is_authorized,
}
use remote_file_system_in_ru.Tests.Memory.{Disk, memory}

parse-names_example :
    (parse_commit_generation (commit_name 12) ≡ some 12)
    × (parse_data_generation (commit_name 12) ≡ none)
    × (parse_data_generation (data_name 12) ≡ some 12)
    × (parse_commit_generation (data_name 12) ≡ none)
parse-names_example = parse-names 12 (omega arith)

abbrev spaced_path : Bytes
spaced_path = codes "/docs/a b%.txt"

spaced_path-IsText : IsText spaced_path
spaced_path-IsText = ground arith

decode_all-encode_api_path_example :
    All (λ c. is_url_byte c ≡ true) (encode_api_path spaced_path)
    × (decode_all (split (encode_api_path spaced_path)) ≡ split (trim_matches spaced_path))
decode_all-encode_api_path_example = decode_all-encode_api_path spaced_path spaced_path-IsText

abbrev connection : Connection
connection = record { base_url = codes "http://host"; token = some (codes " secret ") }

abbrev sent : List (Bytes × Bytes)
sent =
    sent_headers connection Method.patch (codes "http://host/metadata/a") RequestBody.empty
      (some 0o644) (some 1000) none (some (since_epoch 77 0))

plain-Arrives : (name : Bytes) → Arrives plain_headers sent sent name
unfolding Arrives
plain-Arrives name = elim (Option-cases (Map.lookup name sent)) [
  | inl missing ↦ rw (Arrives, missing) missing
  | inr (text, there) ↦ rw (Arrives, there) (text, there, refl)
]

parse-add_optional_metadata_headers_example :
    (parse_optional_mode_header plain_headers sent ≡ ok (some 0o644))
    × (parse_optional_u32_header plain_headers sent file_uid ≡ ok (some 1000))
    × (parse_optional_u32_header plain_headers sent file_gid ≡ ok none)
    × (parse_optional_u64_header plain_headers sent file_mtime ≡ ok (some 77))
unfolding Option.map unix_seconds_from_system_time
parse-add_optional_metadata_headers_example =
    parse-add_optional_metadata_headers connection Method.patch (codes "http://host/metadata/a")
      RequestBody.empty (some 0o644) (some 1000) none (some (since_epoch 77 0)) plain_headers sent
      (
        plain-Arrives file_mode,
        (plain-Arrives file_uid, (plain-Arrives file_gid, (plain-Arrives file_mtime, tt))),
      )
      (omega arith) tt (omega arith)

trimmed : trim (codes " secret ") ≢ []
unfolding trim drop_spaces
trimmed = λ e. absurd (ground arith)

-- A no-break space in front and an em space behind.
trim_unicode : trim (0xC2 ∷ 0xA0 ∷ b'x' ∷ 0xE2 ∷ 0x80 ∷ 0x83 ∷ []) ≡ b'x' ∷ []
unfolding trim drop_spaces
trim_unicode = refl

request_to-is_authorized_example : is_authorized plain_headers (trim (codes " secret ")) sent ≡ true
request_to-is_authorized_example =
    request_to-is_authorized connection Method.patch (codes "http://host/metadata/a")
      RequestBody.empty (some 0o644) (some 1000) none (some (since_epoch 77 0)) plain_headers sent
      (codes " secret ") (plain-Arrives (codes "authorization")) refl trimmed

-- A pending file whose upload runs.
abbrev journal_disk : Disk
journal_disk = record {
  entries = (codes "j" ∷ data_name 0 ∷ [], file 1) ∷ [];
  contents = λ i. codes "abc";
}

unfoldable uploading_file : Held memory
unfolding memory
uploading_file = record {
  disk = journal_disk;
  pending = record {
    directory = codes "j" ∷ [];
    manifest = record { path = codes "/a"; mode = 0o644 };
    current = record { generation = 0; path = codes "j" ∷ data_name 0 ∷ [] };
    state = UploadState.uploading;
  };
}

is_uploading_busy : is_busy uploading_file.pending.state ≡ true
unfolding uploading_file
is_uploading_busy = refl

busy-Refuses_example :
    Refuses memory uploading_file is_uploading_busy (write_at memory (codes "x") 1 uploading_file)
    × Refuses memory uploading_file is_uploading_busy (resize memory 0 uploading_file)
    × (begin_upload memory (since_epoch 5 0) uploading_file ≡ (ok none, uploading_file))
busy-Refuses_example =
    busy-Refuses memory uploading_file is_uploading_busy (codes "x") 1 0 (since_epoch 5 0)
