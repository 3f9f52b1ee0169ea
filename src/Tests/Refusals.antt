-- ===== src/Tests/Refusals.antt =====
-- The callbacks of the mount against a server whose disk fails.
use remote_file_system_in_ru.Base.{◌≡◌, refl, none, [], ok, err}
use remote_file_system_in_ru.Base.Bytes.{codes}
use remote_file_system_in_ru.FileSystem.{ErrorKind, since_epoch}
use remote_file_system_in_ru.Client.Api.{Transport}
use remote_file_system_in_ru.Client.Writeback.{Writeback}
use remote_file_system_in_ru.Client.Fuse.{RemoteFs, eexist, enotempty}
use remote_file_system_in_ru.Client.Fuse.Start.{with_root}
use remote_file_system_in_ru.Client.Fuse.Directories.{fetch_directory}
use remote_file_system_in_ru.Client.Fuse.Ops.Contents.{read_remote, write_remote, resize_remote}
use remote_file_system_in_ru.Client.Fuse.Ops.Entries.{unlink_remote, rmdir_remote, rename_remote}
use remote_file_system_in_ru.Client.Fuse.Attributes.Errors.{failure, answered, errno-from_io}
use remote_file_system_in_ru.Tests.Memory.{memory}
use remote_file_system_in_ru.Tests.Uploading.{local_disk, mount}

-- A server that finds the directory of every request not empty.
unfoldable refusing : Transport
refusing = record {
  State = Unit;
  send = λ request s. (ok (failure ErrorKind.directory_not_empty "" (ok [])), s);
  json_entries = λ text. none;
  json_metadata = λ text. none;
}

unfoldable idle_writeback : Writeback memory refusing
unfolding memory refusing
idle_writeback = record {
  entries = [];
  store = [];
  next_entry = 0;
  entry_counter = 0;
  tasks = [];
  outside = record { disk = local_disk; remote = tt };
}

unfoldable refused_mount : RemoteFs memory refusing
unfolding with_root idle_writeback
refused_mount = with_root memory refusing mount (since_epoch 1 0) 100 idle_writeback

unfoldable unit : refusing.State
unfolding refusing
unit = tt

errno-from_io_example :
    let held = answered memory refusing mount refused_mount unit in
    (fetch_directory memory refusing mount (codes "/a") refused_mount ≡ (err eexist, held))
    × (read_remote memory refusing mount (codes "/a") 0 4 refused_mount ≡ (err eexist, held))
    × (write_remote memory refusing mount 2 0 (codes "/a") (codes "x") 0 refused_mount
        ≡ (err eexist, held))
    × (resize_remote memory refusing mount (codes "/a") 4 refused_mount ≡ (err eexist, held))
    × (unlink_remote memory refusing mount (codes "/a") refused_mount ≡ (err eexist, held))
    × (rename_remote memory refusing mount (codes "/a") (codes "/b") refused_mount
        ≡ (err eexist, held))
    × (rmdir_remote memory refusing mount (codes "/a") refused_mount ≡ (err enotempty, held))
unfolding refusing refused_mount unit
errno-from_io_example =
    errno-from_io memory refusing mount refused_mount unit ErrorKind.directory_not_empty "" (ok [])
      (λ request. refl) (codes "/a") (codes "/a") (codes "/b") (codes "x") 2 0 0 4
