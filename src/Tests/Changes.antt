-- ===== src/Tests/Changes.antt =====
-- The theorems on the handlers that remove and rename, at concrete inputs.
use remote_file_system_in_ru.Base.{◌≡◌, ◌≢◌, refl, ◌⊎◌, true, false, some, [], ◌∷◌, ok, err, is_ok}
use remote_file_system_in_ru.Base.Bytes.{codes, bytes_eq}
use remote_file_system_in_ru.FileSystem.{FilePath, FileType, since_epoch, Metadata, is_file, is_dir}
use remote_file_system_in_ru.Text.Slashes.{trim_matches, components}
use remote_file_system_in_ru.Protocol.{RenameRequest}
use remote_file_system_in_ru.Server.Error.{bad_request}
use remote_file_system_in_ru.Server.Handlers.{path_eq, delete_path, delete_directory, rename_entry}
use remote_file_system_in_ru.Server.Handlers.Paths.{path_eq_iff}
use remote_file_system_in_ru.Server.Handlers.Laws.{
  delete_path-disk, delete_directory-disk, rename_entry-inside, rename_entry-existing,
}
use remote_file_system_in_ru.Server.PathSecurity.{
  sanitize_api_path, reject_link_components, resolve_non_root_path,
}
use remote_file_system_in_ru.Tests.Memory.{path_eq_instance, memory, stat}
use remote_file_system_in_ru.Tests.Examples.{srv_a, srv_d, app, world}

delete_path-disk_example :
    ((delete_path memory app (codes "a") world).1.disk ≡ world.disk)
    ⊎ ((target : FilePath) × (metadata : Metadata) × (resolve_non_root_path memory app.root_dir
            (codes "a")
            world.disk
          ≡ ok target)
        × (memory.metadata target world.disk ≡ ok metadata)
        × (is_file metadata ≡ true)
        × ((delete_path memory app (codes "a") world).1.disk
            ≡ (memory.remove_file target world.disk).1))
delete_path-disk_example = delete_path-disk memory app (codes "a") world

delete_directory-disk_example :
    ((delete_directory memory app (codes "d") world).1.disk ≡ world.disk)
    ⊎ ((target : FilePath) × (metadata : Metadata) × (resolve_non_root_path memory app.root_dir
            (codes "d")
            world.disk
          ≡ ok target)
        × (memory.metadata target world.disk ≡ ok metadata)
        × (is_dir metadata ≡ true)
        × ((delete_directory memory app (codes "d") world).1.disk
            ≡ (memory.remove_dir target world.disk).1))
delete_directory-disk_example = delete_directory-disk memory app (codes "d") world

abbrev kept : RenameRequest
kept = record { from = codes "d"; to = codes "a"; replace_if_exists = false }

abbrev inwards : RenameRequest
inwards = record { from = codes "d"; to = codes "/d/e"; replace_if_exists = true }

abbrev srv_d_e : FilePath
srv_d_e = codes "srv" ∷ codes "d" ∷ codes "e" ∷ []

a_at : resolve_non_root_path memory app.root_dir (codes "a") world.disk ≡ ok srv_a
unfolding memory world path_eq_instance bytes_eq resolve_non_root_path sanitize_api_path
    trim_matches components reject_link_components
a_at = refl

d_at : resolve_non_root_path memory app.root_dir (codes "d") world.disk ≡ ok srv_d
unfolding memory world path_eq_instance bytes_eq resolve_non_root_path sanitize_api_path
    trim_matches components reject_link_components
d_at = refl

e_at : resolve_non_root_path memory app.root_dir (codes "/d/e") world.disk ≡ ok srv_d_e
unfolding memory world path_eq_instance bytes_eq resolve_non_root_path sanitize_api_path
    trim_matches components reject_link_components
e_at = refl

abbrev a_metadata : Metadata
a_metadata = record {
  file_type = FileType.file;
  len = 2;
  modified = some (since_epoch 7 0);
  mode = 33188;
  uid = 0;
  gid = 0;
}

abbrev d_metadata : Metadata
d_metadata = record {
  file_type = FileType.directory;
  len = 0;
  modified = some (since_epoch 7 0);
  mode = 33188;
  uid = 0;
  gid = 0;
}

a_there : memory.symlink_metadata srv_a world.disk ≡ ok a_metadata
unfolding memory world path_eq_instance bytes_eq stat
a_there = refl

d_there : memory.metadata srv_d world.disk ≡ ok d_metadata
unfolding memory world path_eq_instance bytes_eq stat
d_there = refl

apart : srv_d ≢ srv_a
unfolding path_eq bytes_eq
apart e = cc ((path_eq_iff srv_d srv_a).1 e)

rename_entry-existing_example :
    (is_ok (rename_entry memory app kept world).0 ≡ false)
    × ((rename_entry memory app kept world).1 ≡ world)
rename_entry-existing_example =
    rename_entry-existing memory app kept world srv_d srv_a d_at a_at a_metadata apart refl a_there

rename_entry-inside_example :
    rename_entry memory app inwards world
    ≡ (err (bad_request "Cannot move a directory inside itself"), world)
rename_entry-inside_example =
    rename_entry-inside memory app inwards world srv_d srv_d_e d_at e_at d_metadata (codes "e") []
      d_there refl refl
