-- ===== src/Client/Writeback.antt =====
-- `client/src/writeback.rs`: the journals of new files by their paths, and their uploads. A pending
-- file is shared, so it stands in a store under a number, and paths lead to numbers. A spawned
-- upload is a task that waits to run.
pub mod Uploads
use mathlib.Core.Option
use remote_file_system_in_ru.Base.{
  ℕ, String, ◌+◌, ◌%◌, ◌^◌, Bool, not, true, false, ◌&&◌, ◌||◌, Option, none, some, List, [], ◌∷◌,
  ◌++◌, ltb, ◌==◌, is_some, Result, ok, err, if◌then◌else◌,
}
use remote_file_system_in_ru.Base.Bytes.{Bytes, codes, bytes_eq, bytes_eq_instance, starts_with}
use remote_file_system_in_ru.Base.Equality.{nat_eq}
use remote_file_system_in_ru.Base.Effect.{Effect, continue, ◌>>=◌, ◌>>◌, pure, fail, lift, ignore}
use remote_file_system_in_ru.Base.Map
use remote_file_system_in_ru.Base.Map.{Map}
use remote_file_system_in_ru.FileSystem.{
  FileSystem, FilePath, ErrorKind, OpenOptions, SystemTime, is_dir,
}
use remote_file_system_in_ru.Protocol.{RemoteMetadata}
use remote_file_system_in_ru.Text.Radix.{from_str_radix, u64_max}
use remote_file_system_in_ru.Client.Journal
use remote_file_system_in_ru.Client.Journal.{
  IoError, custom, ManifestCodec, PendingFile, UploadSnapshot, UploadState, OnDisk,
}
use remote_file_system_in_ru.Client.Journal.Names.{path_join, entry_id, staging_prefix}
use remote_file_system_in_ru.Client.Journal.Pending
use remote_file_system_in_ru.Client.Journal.Pending.{Held, OnPending}
use remote_file_system_in_ru.Client.Api.{Transport, Connection, UploadError}
use remote_file_system_in_ru.Client.Api.Compare.{Outside}
use remote_file_system_in_ru.Client.RemotePath

abbrev pub lock_file_name : Bytes
lock_file_name = codes "active.lock"

-- `REMOTE_FS_UPLOAD_CONCURRENCY`, and `DEFAULT_UPLOAD_CONCURRENCY` in its place.
unfoldable pub upload_concurrency : Option Bytes → ℕ
unfolding from_str_radix
upload_concurrency none = 8
upload_concurrency (some value) = elim (from_str_radix 10 u64_max value) [
  | none ↦ 8
  | some n ↦ if ltb 0 n then n else 8
]

-- What does not change while the client runs: the process, the texts of errors, and the codec.
pub record Settings : Type 0 where
  pub root : FilePath
  pub connection : Connection
  pub uploads_paused : Bool
  pub codec : ManifestCodec
  pub process_id : ℕ
  pub describe : UploadError → String
  -- The time that stands in for a missing one.
  pub now : SystemTime

pub record UploadTask : Type 0 where
  pub entry : ℕ
  pub snapshot : UploadSnapshot

pub record Writeback (F : FileSystem) (T : Transport) : Type 0 where
  pub entries : Map Bytes ℕ
  pub store : Map ℕ PendingFile
  pub next_entry : ℕ
  pub entry_counter : ℕ
  pub tasks : List UploadTask
  pub outside : Outside F T

unfoldable pub pending_of : List (Bytes × ℕ) → Map ℕ PendingFile → List (ℕ × PendingFile)
unfolding Map.lookup
pending_of [] store = []
pending_of ((path, entry) ∷ rest) store = elim (Map.lookup entry store) [
  | none ↦ pending_of rest store
  | some pending ↦ (entry, pending) ∷ pending_of rest store
]

unfoldable pub select_below : Bytes → List (ℕ × PendingFile) → List (ℕ × PendingFile)
unfolding RemotePath.parent bytes_eq
select_below directory [] = []
select_below directory ((entry, pending) ∷ rest) =
    let more = select_below directory rest in
    if bytes_eq (RemotePath.parent pending.manifest.path) directory
    then (entry, pending) ∷ more
    else more

abbrev pub Action {ℓ} : FileSystem → Transport → Type ℓ → Type ℓ
Action F T A = Effect (Writeback F T) IoError A

module _ {F : FileSystem} {T : Transport} where
  unfoldable pub on_disk {ℓ} : {A : Type ℓ} → OnDisk F A → Action F T A
  on_disk m w =
      let (r, s) = m w.outside.disk in (r, record w { outside = record w.outside { disk = s } })

  -- What an operation on a pending file leaves is stored under its number.
  unfoldable pub stored {ℓ} : {A : Type ℓ} → ℕ → Result IoError A × Held F → Action F T A
  unfolding Map.insert
  stored entry (r, h) w = (
    r,
    record w {
      store = Map.insert entry h.pending w.store;
      outside = record w.outside { disk = h.disk };
    },
  )

  -- An operation on the pending file of a number; every number in use has one.
  unfoldable pub on_entry {ℓ} : {A : Type ℓ} → ℕ → OnPending F A → Action F T A
  unfolding stored Map.lookup
  on_entry entry m w = elim (Map.lookup entry w.store) [
    | none ↦ (err (custom ErrorKind.other "no such entry"), w)
    | some pending ↦ stored entry (m (record { disk = w.outside.disk; pending = pending })) w
  ]

  unfoldable pub modify : (Writeback F T → Writeback F T) → Action F T (Unit {0})
  modify f w = (ok tt, f w)

  unfoldable pub get : Bytes → Writeback F T → Option ℕ
  unfolding Map.lookup
  get path w = Map.lookup path w.entries

  -- `get`, with the pending file that the shared pointer leads to.
  unfoldable pub get_pending : Bytes → Writeback F T → Option (ℕ × PendingFile)
  unfolding get
  get_pending path w =
      Option.bind (get path w)
        (λ entry. Option.map (λ pending. (entry, pending)) (Map.lookup entry w.store))

  -- A pending file under a new number, found by its path.
  unfoldable pub insert_entry : PendingFile → Writeback F T → Writeback F T
  unfolding Map.insert
  insert_entry pending w = record w {
    entries = Map.insert pending.manifest.path w.next_entry w.entries;
    store = Map.insert w.next_entry pending w.store;
    next_entry = w.next_entry + 1;
  }

  unfoldable pub entries_in_directory : Bytes → Writeback F T → List (ℕ × PendingFile)
  unfolding select_below pending_of
  entries_in_directory directory w = select_below directory (pending_of w.entries w.store)

module _ (F : FileSystem) (T : Transport) (settings : Settings) where
  -- `ENTRY_COUNTER.fetch_add(1)` of a `u64`.
  unfoldable pub next_counter : Action F T ℕ
  next_counter w = (ok w.entry_counter, record w { entry_counter = (w.entry_counter + 1) % 2 ^ 64 })

  -- `nanos` stands for `unix_nanos_now()`.
  unfoldable pub stage_new : ℕ → Bytes → ℕ → Action F T ℕ
  unfolding on_disk get next_counter insert_entry Pending.create
  stage_new nanos path mode w =
      if is_some (get path w)
      then (err (custom ErrorKind.already_exists "path is already pending"), w)
      else (do
        counter ← next_counter
        pending ← on_disk (
            Pending.create F settings.codec settings.root
              (entry_id settings.process_id nanos counter) path mode)
        (λ v. (ok v.next_entry, insert_entry pending v)))
          w

  unfoldable pub enqueue : ℕ → Action F T (Unit {0})
  unfolding on_entry Pending.begin_upload
  enqueue entry = if settings.uploads_paused then pure tt else (do
    started ← on_entry entry (Pending.begin_upload F settings.now)
    elim started [
      | none ↦ pure tt
      | some snapshot ↦
          modify (λ w. record w {
            tasks = w.tasks ++ record { entry = entry; snapshot = snapshot } ∷ [];
          })
    ])

  -- The pending file is taken out of the paths only when its directory is gone.
  unfoldable pub discard : ℕ → PendingFile → Action F T (Unit {0})
  unfolding on_entry Pending.discard Map.remove
  discard entry pending = do
    on_entry entry (Pending.discard F)
    modify (λ w. record w { entries = Map.remove pending.manifest.path w.entries })

  -- `start_recovery`: what fails is only logged.
  unfoldable pub enqueue_all : List (ℕ × PendingFile) → Action F T (Unit {0})
  unfolding enqueue
  enqueue_all [] = pure tt
  enqueue_all ((entry, pending) ∷ rest) = do ignore (enqueue entry); enqueue_all rest

  unfoldable pub start_recovery : Action F T (Unit {0})
  unfolding enqueue_all pending_of
  start_recovery w = enqueue_all (pending_of w.entries w.store) w

  -- The loop of `new` over the names in the root of the journals.
  unfoldable pub load_entries : List Bytes → Action F T (Unit {0})
  unfolding on_disk insert_entry Pending.load get
  load_entries [] = pure tt
  load_entries (name ∷ names) = do
    let directory = path_join settings.root name
    m ← on_disk (Journal.look F (F.symlink_metadata directory))
    if not (is_dir m)
        then load_entries names
        else if starts_with name staging_prefix
        then (do ignore (on_disk (Journal.io F (F.remove_dir_all directory))); load_entries names)
        else (do
          pending ← on_disk (Pending.load F settings.codec directory)
          replaced ← (λ w. (ok (is_some (get pending.manifest.path w)), insert_entry pending w))
          if replaced
              then fail (custom ErrorKind.invalid_data "journal contains duplicate paths")
              else load_entries names)

  -- `Writeback::new` on a state without entries: the lock is taken first.
  unfoldable pub open_journals : Action F T (Unit {0})
  unfolding on_disk load_entries
  open_journals = do
    on_disk (Journal.io F (F.create_dir_all settings.root))
    lock_file ←
        on_disk
          (Journal.io F (F.open_file OpenOptions.create (path_join settings.root lock_file_name)))
    on_disk (Journal.io F (F.try_lock lock_file))
    names ← on_disk (Journal.look F (F.read_dir settings.root))
    load_entries names
