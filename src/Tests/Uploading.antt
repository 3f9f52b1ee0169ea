-- ===== src/Tests/Uploading.antt =====
-- The theorems on uploads and on the mount at concrete inputs.
use mathlib.Core.Option
use remote_file_system_in_ru.Base.{
  length, length-take, length-drop, ==_iff, ◌∙◌, List, ℕ, ◌≤◌, ◌≡◌, ◌↔◌, ◌⊎◌, refl, true, false,
  Option, none, some, [], ◌∷◌, arith, take, drop, ok, err,
}
use remote_file_system_in_ru.Base.Bytes.{Bytes, codes, bytes_eq, bytes_eq_instance}
use remote_file_system_in_ru.Base.Map
use remote_file_system_in_ru.Base.Effect.{map_error, ◌>>=◌, ◌>>◌, pure, lift}
use remote_file_system_in_ru.FileSystem.{since_epoch}
use remote_file_system_in_ru.FileSystem.Laws.{file}
use remote_file_system_in_ru.Protocol.{DirectoryEntry, RemoteMetadata, file_offset, file_size}
use remote_file_system_in_ru.Text.Radix.{format, from_str_radix, u64_max, from_str_radix-format}
use remote_file_system_in_ru.Client.Journal.{
  PendingFile, UploadState, ManifestCodec, PendingManifest, UploadSnapshot,
}
use remote_file_system_in_ru.Client.Api.{
  Request, Transport, Connection, UploadError, upload_status, error_for_status,
}
use remote_file_system_in_ru.Client.Api.Url.{request_to, with_header, authorization}
use remote_file_system_in_ru.Client.Api.Calls.{
  list_directory, entries_of, exchange, exchange_metadata, metadata_of, endpoint, read_file,
}
use remote_file_system_in_ru.Client.Api.Compare.{
  Outside, compare_from, locally, remotely, conditionally_create_file_from_path,
}
use remote_file_system_in_ru.Client.Api.Compare.Equal.{ReadsPieces, compare_from-eq}
use remote_file_system_in_ru.Client.Journal
use remote_file_system_in_ru.Client.Writeback.{
  Settings, Writeback, pending_of, select_below, entries_in_directory,
}
use remote_file_system_in_ru.Client.Writeback.Uploads.Waiting.{
  has_task, IsDone, IsQueued, flush-IsDone,
}
use remote_file_system_in_ru.Client.Writeback.Uploads.{flush, upload}
use remote_file_system_in_ru.Client.Writeback.Uploads.Conflict.{creation, comparison, upload-ok}
use remote_file_system_in_ru.Client.Fuse.{RemoteFs, MountSettings, FileOffset, directory_handle}
use remote_file_system_in_ru.Client.Fuse.Tables.{path_for_inode}
use remote_file_system_in_ru.Client.Fuse.Start.{with_root}
use remote_file_system_in_ru.Client.Fuse.Directories.{
  block_on, add_pending, sort_entries, insert_entry, bytes_lt, fetch_directory,
}
use remote_file_system_in_ru.Client.Fuse.Directories.Order.{IsSorted, fetch_directory-IsSorted}
use remote_file_system_in_ru.Client.Fuse.Tables.{modify, asks}
use remote_file_system_in_ru.Client.Fuse.Inodes.{IsMount}
use remote_file_system_in_ru.Client.Fuse.Ops.Lookup.{lookup, readdir, target_path}
use remote_file_system_in_ru.Client.Fuse.Ops.Offsets.{readdir-continued}
use remote_file_system_in_ru.Client.Fuse.Reachable.{
  Reachable, Step, Reachable-IsMount, path_for_inode_iff,
}
use remote_file_system_in_ru.Tests.Memory.{Disk, memory, path_eq_instance}

-- The contents of the only remote file, and the piece of it that the headers of a request ask for.
abbrev remote_contents : Bytes
remote_contents = codes "abc"

abbrev number : Option Bytes → ℕ
number none = 0
number (some text) = Option.get_or (from_str_radix 10 u64_max text) 0

unfoldable served : Request → Bytes
served request =
    take (number (Map.lookup file_size request.headers))
      (drop (number (Map.lookup file_offset request.headers)) remote_contents)

abbrev remote_metadata : RemoteMetadata
remote_metadata = record {
  type_ = codes "file";
  size = 3;
  modified_at = codes "7";
  mode = some 0o644;
  uid = none;
  gid = none;
}

abbrev remote_entry : DirectoryEntry
remote_entry = record {
  name = codes "a";
  type_ = codes "file";
  size = 3;
  modified_at = codes "7";
  mode = some 0o644;
  uid = none;
  gid = none;
}

-- A server with two files in one directory that answers every request with a success.
unfoldable server : Transport
unfolding served
server = record {
  State = Unit;
  send = λ request s. (ok (record { status_code = 200; response_body = ok (served request) }), s);
  json_entries = λ text. some (record remote_entry { name = codes "b" } ∷ remote_entry ∷ []);
  json_metadata = λ text. some remote_metadata;
}

abbrev connection : Connection
connection = record { base_url = codes "http://host"; token = none }

abbrev codec : ManifestCodec
codec = record {
  to_vec = λ m. m.mode ∷ m.path;
  from_slice =
      λ text. elim text [ [] ↦ none | mode ∷ path ↦ some (record { path = path; mode = mode }) ];
  reads_back = λ m. refl;
}

abbrev settings : Settings
settings = record {
  root = codes "journal" ∷ [];
  connection = connection;
  uploads_paused = false;
  codec = codec;
  process_id = 1;
  describe = λ error. "failed";
  now = since_epoch 9 0;
}

abbrev pub local_disk : Disk
local_disk = record { entries = (codes "data" ∷ [], file 1) ∷ []; contents = λ i. codes "abc" }

unfoldable outside : Outside memory server
unfolding memory server
outside = record { disk = local_disk; remote = tt }

abbrev snapshot : UploadSnapshot
snapshot = record {
  path = codes "/a";
  mode = 0o644;
  modified_at = since_epoch 7 0;
  file_path = codes "data" ∷ [];
}

uploaded : (upload memory server settings snapshot outside).0 ≡ ok remote_metadata
unfolding upload conditionally_create_file_from_path outside memory server locally remotely
    Journal.io ◌>>=◌ ◌>>◌ exchange_metadata exchange metadata_of error_for_status pure lift
    path_eq_instance
uploaded = refl

upload-ok_example :
    ((creation memory server settings snapshot outside).0 ≡ ok remote_metadata)
    ⊎ ((error : UploadError) × ((creation memory server settings snapshot outside).0 ≡ err error)
        × (upload_status error ≡ some 412)
        × ((comparison memory server settings snapshot outside).0 ≡ ok true))
upload-ok_example = upload-ok memory server settings snapshot outside remote_metadata uploaded

pieces : ReadsPieces memory server connection (codes "a") outside (codes "abc") remote_contents
unfolding memory server outside read_file exchange error_for_status ◌>>=◌ lift pure served endpoint
    request_to with_header authorization Map.lookup bytes_eq bytes_eq_instance
pieces = record {
  positioned = λ offset. record { file_inode = 1; file_position = offset };
  reads = λ offset n h.
      let whole : length (take n (drop offset remote_contents)) ≡ n =
        length-take n (drop offset remote_contents)
        ∙ omega (arith, length-drop offset remote_contents) in
      rw (whole, (==_iff n n).1 refl) refl;
  serves = λ offset n h.
      let read_back : (k : ℕ) → k ≤ 3 → from_str_radix 10 u64_max (format 10 k) ≡ some k =
        λ k fits. from_str_radix-format 10 u64_max (omega arith) (omega arith) k (omega arith) in
      rw (read_back n (omega (arith, h)), read_back offset (omega (arith, h))) refl;
}

compare_from-eq_example :
    compare_from memory server connection 2 3 (codes "a") (pieces.positioned 0) 3 0 outside
    ≡ (ok (bytes_eq (drop 0 remote_contents) (drop 0 (codes "abc"))), outside)
compare_from-eq_example =
    compare_from-eq memory server connection (codes "a") outside (codes "abc") remote_contents
      pieces refl 2 3 0 (omega arith) (omega arith) (omega arith)

-- A mount that has looked up the remote file.
abbrev pub mount : MountSettings
mount = record { writeback = settings; uid = 1000; gid = 1000 }

unfoldable idle_writeback : Writeback memory server
unfolding outside
idle_writeback = record {
  entries = [];
  store = [];
  next_entry = 0;
  entry_counter = 0;
  tasks = [];
  outside = outside;
}

unfoldable fresh_mount : RemoteFs memory server
unfolding with_root idle_writeback
fresh_mount = with_root memory server mount (since_epoch 1 0) 100 idle_writeback

unfoldable looked_up : RemoteFs memory server
unfolding lookup fresh_mount
looked_up = (lookup memory server mount 1 (some (codes "a")) fresh_mount).1

looked_up-Reachable : Reachable memory server mount looked_up
unfolding looked_up fresh_mount
looked_up-Reachable =
    Reachable.stepped (Reachable.started (since_epoch 1 0) 100 idle_writeback)
      (Step.on_lookup 1 (some (codes "a")))

Reachable-IsMount_example : IsMount looked_up
Reachable-IsMount_example = Reachable-IsMount memory server mount looked_up looked_up-Reachable

path_for_inode_iff_example :
    (path_for_inode 2 looked_up ≡ some (codes "/a"))
    ↔ (Map.lookup (codes "/a") looked_up.path_to_inode ≡ some 2)
path_for_inode_iff_example =
    path_for_inode_iff memory server mount looked_up 2 (codes "/a") looked_up-Reachable

readdir-continued_example :
    readdir memory server mount (λ held entry. false) 1 0 (FileOffset.at 2) looked_up
    ≡ (do current_path ← target_path directory_handle 1 0; pure []) looked_up
readdir-continued_example =
    readdir-continued memory server mount (λ held entry. false) 1 0 2 looked_up (omega arith)

-- An entry whose upload waits to run.
abbrev queued_file : PendingFile
queued_file = record {
  directory = [];
  manifest = record { path = codes "/a"; mode = 0o644 };
  current = record { generation = 0; path = codes "data" ∷ [] };
  state = UploadState.uploading;
}

unfoldable queue_state : Writeback memory server
unfolding outside
queue_state = record {
  entries = (codes "/a", 0) ∷ [];
  store = (0, queued_file) ∷ [];
  next_entry = 1;
  entry_counter = 1;
  tasks = record { entry = 0; snapshot = snapshot } ∷ [];
  outside = outside;
}

queue_state-IsQueued : IsQueued memory server settings queue_state
unfolding queue_state has_task Map.lookup
queue_state-IsQueued entry no_task pending found = absurd (ground arith)

flush-IsDone_example : IsDone 0 (flush memory server settings 0 queue_state).1
flush-IsDone_example = flush-IsDone memory server settings 0 queue_state queue_state-IsQueued

abbrev in_order : List DirectoryEntry
in_order = remote_entry ∷ record remote_entry { name = codes "b" } ∷ []

fetched : (fetch_directory memory server mount (codes "/") fresh_mount).0 ≡ ok in_order
unfolding fetch_directory server fresh_mount memory outside idle_writeback map_error block_on
    list_directory exchange entries_of error_for_status asks modify add_pending pure lift
    sort_entries insert_entry bytes_lt ◌>>=◌ ◌>>◌ entries_in_directory pending_of select_below
    with_root
fetched = refl

fetch_directory-IsSorted_example : IsSorted in_order
fetch_directory-IsSorted_example =
    fetch_directory-IsSorted memory server mount (codes "/") fresh_mount in_order fetched
