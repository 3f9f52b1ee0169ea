-- ===== src/Client/Api/Compare.antt =====
-- `conditionally_create_file_from_path` and `remote_file_matches_local`: the calls that also read a
-- file of the journal.
pub mod Equal
use remote_file_system_in_ru.Base.{
  ℕ, zero, suc, ◌+◌, ◌-◌, min, Bool, not, true, false, ◌&&◌, ◌||◌, Option, none, some, List, [],
  ◌∷◌, ltb, ◌==◌, length, Result, ok, err, map_err, if◌then◌else◌,
}
use remote_file_system_in_ru.Base.Bytes.{Bytes, codes, bytes_eq}
use remote_file_system_in_ru.Base.Effect.{Effect, continue, ◌>>=◌, ◌>>◌, pure, fail, lift}
use remote_file_system_in_ru.FileSystem.{FileSystem, FilePath, ErrorKind, OpenOptions, SystemTime}
use remote_file_system_in_ru.Protocol.{RemoteMetadata}
use remote_file_system_in_ru.Client.Journal.{IoError, system, custom, OnDisk}
use remote_file_system_in_ru.Client.Journal
use remote_file_system_in_ru.Client.Api.{
  RequestBody, HttpError, Transport, Connection, Call, UploadError, http,
}
use remote_file_system_in_ru.Client.Api.Calls.{
  conditional_put, exchange_metadata, get_metadata, read_file,
}

-- `COMPARE_BUFFER_SIZE`, 4 MiB.
abbrev pub compare_buffer_size : ℕ
compare_buffer_size = 4194304

-- The local disk and the state of the remote.
pub record Outside (F : FileSystem) (T : Transport) : Type 0 where
  pub disk : F.State
  pub remote : T.State

module _ {F : FileSystem} {T : Transport} where
  unfoldable pub locally {ℓ} : {A : Type ℓ} → OnDisk F A → Effect (Outside F T) UploadError A
  locally m w = let (r, s) = m w.disk in (map_err UploadError.io r, record w { disk = s })

  unfoldable pub remotely {ℓ} : {A : Type ℓ} → Call T A → Effect (Outside F T) UploadError A
  remotely m w = let (r, s) = m w.remote in (map_err http r, record w { remote = s })

module _ (F : FileSystem) (T : Transport) (connection : Connection) where
  unfoldable pub conditionally_create_file_from_path :
      Bytes → FilePath → ℕ → SystemTime → Effect (Outside F T) UploadError RemoteMetadata
  unfolding locally remotely conditional_put exchange_metadata
  conditionally_create_file_from_path path file_path mode modified_at = do
    locally (Journal.io F (F.open_file OpenOptions.read file_path))
    contents ← (λ w. (ok (F.read_file file_path w.disk), w))
    remotely (
        exchange_metadata T
          (conditional_put T connection path (RequestBody.stream contents) mode modified_at))

  -- The loop, for a buffer of the given size; the file is read on from its own position. Each round
  -- reads at least a byte, so as many rounds of fuel as there are bytes left are enough; without fuel
  -- the answer is that the files match.
  unfoldable pub compare_from :
      ℕ → ℕ → Bytes → F.File → ℕ → ℕ → Effect (Outside F T) UploadError Bool
  unfolding locally remotely read_file
  compare_from size zero path file local_size offset = pure true
  compare_from size (suc fuel) path file local_size offset =
      let requested = min (local_size - offset) size in
      if ltb offset local_size
      then (do
        local ← locally (Journal.look F (F.read_exact file requested))
        remote_bytes ← remotely (read_file T connection path offset requested)
        let next = compare_from size fuel path local.1 local_size (offset + requested) in
            if bytes_eq remote_bytes local.0 then next else pure false)
      else pure true

  unfoldable pub remote_file_matches_local :
      Bytes → FilePath → Effect (Outside F T) UploadError Bool
  unfolding locally remotely compare_from get_metadata
  remote_file_matches_local path file_path = do
    m ← locally (Journal.look F (F.metadata file_path))
    remote ← remotely (get_metadata T connection path)
    if not (bytes_eq remote.type_ (codes "file")) || not (remote.size == m.len)
        then pure false
        else (do
          file ← locally (Journal.io F (F.open_file OpenOptions.read file_path))
          compare_from compare_buffer_size m.len path file m.len 0)
