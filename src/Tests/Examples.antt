-- ===== src/Tests/Examples.antt =====
-- The theorems on the server at concrete inputs.
use remote_file_system_in_ru.Base.{ℕ, ◌≡◌, ◌≢◌, refl, false, none, some, [], ◌∷◌, is_ok}
use remote_file_system_in_ru.Base.Bytes.{codes, bytes_eq}
use remote_file_system_in_ru.FileSystem.{FilePath}
use remote_file_system_in_ru.FileSystem.Laws.{file, directory}
use remote_file_system_in_ru.Server.Http.{plain_headers}
use remote_file_system_in_ru.Server.Storage.{AppState, World}
use remote_file_system_in_ru.Server.Transaction.{
  Chunks, create_file_atomically, transaction_path_of,
}
use remote_file_system_in_ru.Server.Transaction.Safety.{create_file_atomically-keeps}
use remote_file_system_in_ru.Server.Transaction.Existing.{create_file_atomically-existing}
use remote_file_system_in_ru.Tests.Memory.{path_eq_instance, Disk, memory}
use remote_file_system_in_ru.Tests.Lawful.{memory_view, memory-IsPreserving}

abbrev pub srv : FilePath
srv = codes "srv" ∷ []

abbrev pub srv_a : FilePath
srv_a = codes "srv" ∷ codes "a" ∷ []

abbrev pub srv_d : FilePath
srv_d = codes "srv" ∷ codes "d" ∷ []

abbrev pub disk : Disk
disk = record {
  entries = (srv_a, file 0) ∷ (srv_d, directory) ∷ (srv, directory) ∷ [];
  contents = λ i. codes "hi";
}

abbrev pub app : AppState
app = record {
  root_dir = srv;
  transaction_dir = codes "srv" ∷ codes ".remote-fs-transactions" ∷ [];
  auth_token = none;
  process_id = 42;
}

unfoldable pub world : World memory
unfolding memory
world = record { disk = disk; transaction_counter = 0 }

abbrev chunks : Chunks
chunks = some (codes "new") ∷ []

world_tree : memory_view.tree world.disk srv_a ≡ some (file 0)
unfolding memory memory_view world path_eq_instance bytes_eq
world_tree = refl

apart : srv_a ≢ transaction_path_of memory plain_headers app world.transaction_counter
unfolding world transaction_path_of memory
apart e = cc e

create_file_atomically-keeps_example :
    let run = create_file_atomically memory plain_headers app srv_a [] chunks world in
    (memory_view.tree run.1.disk srv_a ≡ some (file 0))
    × ((i : ℕ) → file 0 ≡ file i → memory_view.bytes run.1.disk i ≡ memory_view.bytes world.disk i)
create_file_atomically-keeps_example =
    create_file_atomically-keeps memory memory_view memory-IsPreserving plain_headers app srv_a []
      chunks world srv_a (file 0) world_tree apart

create_file_atomically-existing_example :
    is_ok (create_file_atomically memory plain_headers app srv_a [] chunks world).0 ≡ false
create_file_atomically-existing_example =
    create_file_atomically-existing memory memory_view memory-IsPreserving plain_headers app srv_a
      [] chunks world (file 0) world_tree apart
