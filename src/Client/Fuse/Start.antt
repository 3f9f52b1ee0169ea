-- ===== src/Client/Fuse/Start.antt =====
-- `RemoteFs::new`: the journals are opened, their uploads are queued, and the root has its inode.
use remote_file_system_in_ru.Base.{ℕ, [], ◌∷◌, ok}
use remote_file_system_in_ru.Base.Bytes.{codes}
use remote_file_system_in_ru.Base.Effect.{◌>>◌}
use remote_file_system_in_ru.FileSystem.{FileSystem, SystemTime}
use remote_file_system_in_ru.Client.Cache
use remote_file_system_in_ru.Client.Api.{Transport}
use remote_file_system_in_ru.Client.Writeback
use remote_file_system_in_ru.Client.Writeback.{Writeback, Action}
use remote_file_system_in_ru.Client.Fuse.{directory, RemoteFs, MountSettings, fuse_root_id}
use remote_file_system_in_ru.Client.Fuse.Attributes.{create_file_attr}

-- `DIRECTORY_CACHE_TTL` in milliseconds, and `DIRECTORY_CACHE_MAX_ENTRIES`.
abbrev pub directory_cache_ttl : ℕ
directory_cache_ttl = 5000

abbrev pub directory_cache_max_entries : ℕ
directory_cache_max_entries = 256

module _ (F : FileSystem) (T : Transport) (mount : MountSettings) where
  -- The state with nothing but the root.
  unfoldable pub with_root : SystemTime → ℕ → Writeback F T → RemoteFs F T
  unfolding create_file_attr
  with_root now clock writeback = record {
    clock = clock;
    inode_map =
        (
          fuse_root_id,
          record {
            attr = create_file_attr fuse_root_id directory 0 0o755 mount.uid mount.gid now;
            refreshed_at = clock;
          },
        )
        ∷ [];
    path_to_inode = (codes "/", fuse_root_id) ∷ [];
    next_inode = 2;
    directory_cache = Cache.new directory_cache_max_entries directory_cache_ttl;
    open_handles = [];
    next_handle = 1;
    writeback = writeback;
  }

  unfoldable pub new : SystemTime → ℕ → Action F T (RemoteFs F T)
  unfolding Writeback.open_journals Writeback.start_recovery with_root
  new now clock = do
    Writeback.open_journals F T mount.writeback
    Writeback.start_recovery F T mount.writeback
    (λ w. (ok (with_root now clock w), w))
