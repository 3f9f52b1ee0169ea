-- ===== src/Client/Writeback/Uploads.antt =====
-- The task that `enqueue` spawns, and the operations that wait for one.
pub mod Conflict
pub mod Waiting
use mathlib.Core.Option
use remote_file_system_in_ru.Base.{
  ℕ, Bool, true, false, Option, none, some, List, [], ◌∷◌, ◌==◌, is_some_and, Result, ok, err,
  if◌then◌else◌,
}
use remote_file_system_in_ru.Base.Bytes.{Bytes, bytes_eq_instance}
use remote_file_system_in_ru.Base.Equality.{nat_eq}
use remote_file_system_in_ru.Base.Effect.{Effect, continue, ◌>>=◌, ◌>>◌, pure, fail, lift, ignore}
use remote_file_system_in_ru.Base.Map
use remote_file_system_in_ru.FileSystem.{FileSystem, ErrorKind}
use remote_file_system_in_ru.Protocol.{RemoteMetadata}
use remote_file_system_in_ru.Client.Journal
use remote_file_system_in_ru.Client.Journal.{IoError, custom, PendingFile, UploadSnapshot}
use remote_file_system_in_ru.Client.Journal.Pending
use remote_file_system_in_ru.Client.Journal.Pending.{Held, change}
use remote_file_system_in_ru.Client.RemotePath
use remote_file_system_in_ru.Client.Api.{Transport, UploadError, upload_status}
use remote_file_system_in_ru.Client.Api.Calls.{get_metadata}
use remote_file_system_in_ru.Client.Api.Compare.{
  Outside, remotely, conditionally_create_file_from_path, remote_file_matches_local,
}
use remote_file_system_in_ru.Client.Writeback.{
  Settings, Writeback, UploadTask, Action, modify, on_entry, pending_of, enqueue,
}

module _ (F : FileSystem) (T : Transport) (settings : Settings) where
  -- After a 412: the upload has succeeded if the remote file has the same content.
  unfoldable pub after_conflict : UploadSnapshot → Effect (Outside F T) UploadError RemoteMetadata
  unfolding remote_file_matches_local remotely get_metadata
  after_conflict snapshot = do
    matches ←
        remote_file_matches_local F T settings.connection (RemotePath.api snapshot.path)
          snapshot.file_path
    if matches
        then remotely (get_metadata T settings.connection (RemotePath.api snapshot.path))
        else fail (
            UploadError.io (
              custom ErrorKind.already_exists
                "remote path exists with different content; journal was retained"))

  abbrev pub retry_conflict :
      UploadSnapshot
      → Result UploadError RemoteMetadata
      → Effect (Outside F T) UploadError RemoteMetadata
  retry_conflict snapshot (ok metadata) w = (ok metadata, w)
  retry_conflict snapshot (err error) w =
      if is_some_and (upload_status error) (λ code. code == 412)
      then after_conflict snapshot w
      else (err error, w)

  -- The network part of the task.
  unfoldable pub upload : UploadSnapshot → Effect (Outside F T) UploadError RemoteMetadata
  unfolding conditionally_create_file_from_path after_conflict
  upload snapshot w =
      let (r, v) =
        conditionally_create_file_from_path F T settings.connection (RemotePath.api snapshot.path)
          snapshot.file_path snapshot.mode snapshot.modified_at w in
      retry_conflict snapshot r v

  -- `inner.entries.remove(entry.path())`, and the removal of the directory, which may fail.
  unfoldable pub retire_entry : ℕ → Action F T (Unit {0})
  unfolding on_entry Map.remove
  retire_entry entry = do
    pending ← on_entry entry (Pending.of_pending (λ p. p))
    modify (λ w. record w { entries = Map.remove pending.manifest.path w.entries })
    ignore (on_entry entry (Pending.on_disk (Journal.io F (F.remove_dir_all pending.directory))))

  unfoldable pub complete : ℕ → Result UploadError RemoteMetadata → Action F T (Unit {0})
  unfolding on_entry retire_entry Pending.finish_success Pending.finish_failure
  complete entry (ok metadata) = do
    on_entry entry (change (Pending.finish_success metadata))
    retire_entry entry
  complete entry (err error) =
      on_entry entry (change (Pending.finish_failure (settings.describe error)))

  -- The whole task. `permit` says that the scheduler still gives permits.
  unfoldable pub run_task : Option UploadError → UploadTask → Action F T (Unit {0})
  unfolding upload complete
  run_task (some stopped) task w = complete task.entry (err stopped) w
  run_task none task w =
      let (r, outside) = upload task.snapshot w.outside in
      complete task.entry r (record w { outside = outside })

  -- The tasks of an entry run, and leave the queue; a waiting caller is woken by them.
  unfoldable pub run_tasks_of : ℕ → List UploadTask → Action F T (Unit {0})
  unfolding run_task
  run_tasks_of entry [] w = (ok tt, w)
  run_tasks_of entry (task ∷ tasks) w =
      if task.entry == entry
      then (do run_task none task; run_tasks_of entry tasks) w
      else run_tasks_of entry tasks (record w { tasks = task ∷ w.tasks })

  -- `wait_for_upload`: the caller sleeps while its upload runs, so the tasks of the entry run here.
  -- For an upload in progress that has no task, where the source would wait for ever, this answers as
  -- for an entry that is not queued.
  unfoldable pub wait_for_upload : ℕ → Action F T RemoteMetadata
  unfolding run_tasks_of on_entry
  wait_for_upload entry = do
    (λ w. run_tasks_of entry w.tasks (record w { tasks = [] }))
    pending ← on_entry entry (Pending.of_pending (λ p. p))
    lift (
        Option.get_or (Pending.upload_outcome pending.state)
          (err (custom ErrorKind.would_block "pending file has not been queued")))

  unfoldable pub flush : ℕ → Action F T RemoteMetadata
  unfolding enqueue wait_for_upload
  flush entry = do enqueue F T settings entry; wait_for_upload entry

  unfoldable pub enqueue_each : List (ℕ × PendingFile) → Action F T (Unit {0})
  unfolding enqueue
  enqueue_each [] = pure tt
  enqueue_each ((entry, pending) ∷ rest) = do enqueue F T settings entry; enqueue_each rest

  unfoldable pub wait_for_each : List (ℕ × PendingFile) → Action F T (Unit {0})
  unfolding wait_for_upload
  wait_for_each [] = pure tt
  wait_for_each ((entry, pending) ∷ rest) = do wait_for_upload entry; wait_for_each rest

  unfoldable pub flush_all : Action F T (Unit {0})
  unfolding enqueue_each wait_for_each pending_of
  flush_all w =
      (do enqueue_each (pending_of w.entries w.store); wait_for_each (pending_of w.entries w.store))
        w
