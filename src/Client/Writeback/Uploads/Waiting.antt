-- ===== src/Client/Writeback/Uploads/Waiting.antt =====
-- Waiting for an upload ends: an upload in progress has a task, and a task that has run leaves its
-- file committed or failed.
use mathlib.Core.Path.{subst}
use remote_file_system_in_ru.Base.{
  ℕ, ◌≡◌, ◌≢◌, refl, sym, ◌∙◌, Bool, false, ◌||◌, Bool-cases, Option-cases, inl, inr, Option, none,
  some, List, [], ◌∷◌, ◌++◌, ◌==◌, arith, Result, ok, err, Result-cases,
}
use remote_file_system_in_ru.Base.Equality.{nat_eq}
use remote_file_system_in_ru.Base.Effect.{◌>>=◌, ◌>>◌, pure, lift, ignore, bind-after, seq-after}
use remote_file_system_in_ru.Base.Map
use remote_file_system_in_ru.Base.Map.{lookup-insert}
use remote_file_system_in_ru.FileSystem.{FileSystem}
use remote_file_system_in_ru.Protocol.{RemoteMetadata}
use remote_file_system_in_ru.Client.Journal.{
  IoError, PendingFile, UploadState, UploadSnapshot, io, look,
}
use remote_file_system_in_ru.Client.Journal.Pending
use remote_file_system_in_ru.Client.Journal.Pending.{Held, OnPending, is_uploading}
use remote_file_system_in_ru.Client.Api.{Transport, UploadError}
use remote_file_system_in_ru.Client.Writeback.{
  Settings, UploadTask, Writeback, stored, on_entry, modify, enqueue,
}
use remote_file_system_in_ru.Client.Writeback.Uploads.{
  upload, retire_entry, complete, run_task, run_tasks_of, wait_for_upload, flush,
}

unfoldable pub has_task : ℕ → List UploadTask → Bool
has_task entry [] = false
has_task entry (task ∷ tasks) = task.entry == entry || has_task entry tasks

module _ {F : FileSystem} {T : Transport} where
  -- The file of the entry, if there is one, is not being uploaded.
  abbrev pub IsDone : ℕ → Writeback F T → Type 0
  IsDone entry w =
      (pending : PendingFile)
      → Map.lookup entry w.store ≡ some pending
      → is_uploading pending.state ≡ false

  -- An operation that does not begin an upload does not make the file one that is uploaded.
  on_entry-IsDone {ℓ} :
      {A : Type ℓ} (entry : ℕ) (m : OnPending F A) (w : Writeback F T)
      → ((h : Held F)
          → is_uploading h.pending.state ≡ false
          → is_uploading (m h).1.pending.state ≡ false)
      → IsDone entry w
      → IsDone entry (on_entry entry m w).1
  unfolding on_entry stored
  on_entry-IsDone entry m w calm done = elim (Option-cases (Map.lookup entry w.store)) [
    | inl missing ↦ rw (on_entry, missing) (λ pending found. done pending found)
    | inr (old, there) ↦
        rw (on_entry, there)
          (λ pending found.
            let e =
              lookup-insert entry entry
                (m (record { disk = w.outside.disk; pending = old })).1.pending w.store in
            let same = (nat_eq.beq_iff entry entry).1 refl in
            let result = calm (record { disk = w.outside.disk; pending = old }) (done old there) in
            ground (arith, e, result))
  ]

  on_entry-answer {ℓ} :
      {A : Type ℓ} (entry : ℕ) (m : OnPending F A) (w : Writeback F T)
      → ((h : Held F)
          → (m h).0 ≡ (on_entry entry m w).0
          → is_uploading h.pending.state ≡ false
          → is_uploading (m h).1.pending.state ≡ false)
      → IsDone entry w
      → IsDone entry (on_entry entry m w).1
  unfolding on_entry stored
  on_entry-answer entry m w calm done = elim (Option-cases (Map.lookup entry w.store)) [
    | inl missing ↦ rw (on_entry, missing) (λ pending found. done pending found)
    | inr (old, there) ↦
        let held : Held F = record { disk = w.outside.disk; pending = old } in
        let result = calm held (rw (on_entry, there) refl) (done old there) in
        rw (on_entry, there)
          (λ pending found.
            let e = lookup-insert entry entry (m held).1.pending w.store in
            let same = (nat_eq.beq_iff entry entry).1 refl in ground (arith, e, result))
  ]

  -- An operation that ends an upload.
  end-IsDone :
      (entry : ℕ) (f : PendingFile → PendingFile) (w : Writeback F T)
      → ((p : PendingFile) → is_uploading (f p).state ≡ false)
      → IsDone entry (on_entry entry (Pending.change f) w).1
  unfolding on_entry stored Pending.change
  end-IsDone entry f w ends = elim (Option-cases (Map.lookup entry w.store)) [
    | inl missing ↦ rw (on_entry, missing) (λ pending found. absurd (ground arith))
    | inr (old, there) ↦
        rw (on_entry, there)
          (λ pending found.
            let e = lookup-insert entry entry (f old) w.store in
            let same = (nat_eq.beq_iff entry entry).1 refl in ground (arith, e, ends old))
  ]

module _ (F : FileSystem) (T : Transport) (settings : Settings) where
  retire_entry-IsDone :
      (entry : ℕ) (w : Writeback F T)
      → IsDone entry w
      → IsDone entry (retire_entry F T settings entry w).1
  unfolding retire_entry modify ignore Pending.of_pending Pending.on_disk io
  retire_entry-IsDone entry w done =
      let read = on_entry-IsDone entry (Pending.of_pending (λ p. p)) w (λ h calm. calm) done in
      bind-after (IsDone entry) (on_entry entry (Pending.of_pending (λ p. p))) w (λ x e. read) _
        (λ pending e.
          seq-after (IsDone entry) (modify _) _ (λ x e'. read) _
            (λ u e'.
              on_entry-IsDone entry (Pending.on_disk (io F (F.remove_dir_all pending.directory))) _
                (λ h calm. calm) read))

  complete-IsDone :
      (entry : ℕ) (r : Result UploadError RemoteMetadata) (w : Writeback F T)
      → IsDone entry (complete F T settings entry r w).1
  unfolding complete Pending.finish_success Pending.finish_failure
  complete-IsDone entry (ok metadata) w =
      let ended = end-IsDone entry (Pending.finish_success metadata) w (λ p. refl) in
      seq-after (IsDone entry) (on_entry entry (Pending.change (Pending.finish_success metadata))) w
        (λ x e. ended) _ (λ u e. retire_entry-IsDone entry _ ended)
  complete-IsDone entry (err error) w =
      end-IsDone entry (Pending.finish_failure (settings.describe error)) w (λ p. refl)

  run_task-IsDone :
      (stopped : Option UploadError) (task : UploadTask) (w : Writeback F T)
      → IsDone task.entry (run_task F T settings stopped task w).1
  unfolding run_task
  run_task-IsDone (some error) task w = complete-IsDone task.entry (err error) w
  run_task-IsDone none task w =
      let sent = upload F T settings task.snapshot w.outside in
      complete-IsDone task.entry sent.0 (record w { outside = sent.1 })

  -- Where the tasks of the entry have run, its file is not being uploaded.
  run_tasks_of-IsDone :
      (entry : ℕ) (tasks : List UploadTask) (w : Writeback F T)
      → (has_task entry tasks ≡ false → IsDone entry w)
      → IsDone entry (run_tasks_of F T settings entry tasks w).1
  unfolding run_tasks_of has_task
  run_tasks_of-IsDone entry [] w start = start refl
  run_tasks_of-IsDone entry (task ∷ tasks) w start = elim (Bool-cases (task.entry == entry)) [
    | inl same ↦
        let e : task.entry ≡ entry = ground arith in
        let here = run_task-IsDone none task w in
        let ran = subst (λ k. IsDone k (run_task F T settings none task w).1) e here in
        rw same (
          seq-after (IsDone entry) (run_task F T settings none task) w (λ x e'. ran) _
            (λ u e'. run_tasks_of-IsDone entry tasks _ (λ none_left. ran)))
    | inr other ↦
        rw other (run_tasks_of-IsDone entry tasks _ (λ none_left. start (rw other none_left)))
  ]

  -- Every upload in progress has a task.
  abbrev pub IsQueued : Writeback F T → Type 0
  IsQueued w = (entry : ℕ) → has_task entry w.tasks ≡ false → IsDone entry w

  wait_for_upload-IsDone :
      (entry : ℕ) (w : Writeback F T)
      → IsQueued w
      → IsDone entry (wait_for_upload F T settings entry w).1
  unfolding wait_for_upload Pending.of_pending lift
  wait_for_upload-IsDone entry w queued =
      let ran = run_tasks_of-IsDone entry w.tasks (record w { tasks = [] }) (queued entry) in
      seq-after (IsDone entry)
        (λ v. run_tasks_of F T settings entry v.tasks (record v { tasks = [] })) w (λ x e. ran) _
        (λ u e.
          let read = on_entry-IsDone entry (Pending.of_pending (λ p. p)) _ (λ h calm. calm) ran in
          bind-after (IsDone entry) (on_entry entry (Pending.of_pending (λ p. p))) _ (λ x e'. read)
            _ (λ pending e'. read))

  has_task-append :
      (entry : ℕ) (tasks more : List UploadTask)
      → has_task entry (tasks ++ more) ≡ (has_task entry tasks || has_task entry more)
  unfolding has_task
  has_task-append entry [] more = refl
  has_task-append entry (task ∷ tasks) more = elim (Bool-cases (task.entry == entry)) [
    | inl same ↦ rw same
    | inr other ↦ rw other (has_task-append entry tasks more)
  ]

  -- Another entry's file is not touched, and the tasks stay.
  on_entry-other {ℓ} :
      {A : Type ℓ} (entry other : ℕ) (m : OnPending F A) (w : Writeback F T)
      → (entry == other) ≡ false
      → Map.lookup other (on_entry entry m w).1.store ≡ Map.lookup other w.store
  unfolding on_entry stored
  on_entry-other entry other m w different = elim (Option-cases (Map.lookup entry w.store)) [
    | inl missing ↦ rw (on_entry, missing) refl
    | inr (old, there) ↦
        rw (on_entry, there) (lookup-insert entry other _ w.store ∙ rw different refl)
  ]

  on_entry-tasks {ℓ} :
      {A : Type ℓ} (entry : ℕ) (m : OnPending F A) (w : Writeback F T)
      → (on_entry entry m w).1.tasks ≡ w.tasks
  unfolding on_entry stored
  on_entry-tasks entry m w = elim (Option-cases (Map.lookup entry w.store)) [
    | inl missing ↦ rw (on_entry, missing) refl
    | inr (old, there) ↦ rw (on_entry, there) refl
  ]

  -- An operation with an answer after which the file is not one that is newly uploaded.
  on_entry-IsQueued {ℓ} :
      {A : Type ℓ} (entry : ℕ) (m : OnPending F A) (w : Writeback F T)
      → ((h : Held F)
          → (m h).0 ≡ (on_entry entry m w).0
          → is_uploading h.pending.state ≡ false
          → is_uploading (m h).1.pending.state ≡ false)
      → IsQueued w
      → IsQueued (on_entry entry m w).1
  on_entry-IsQueued entry m w calm queued k no_task = elim (Bool-cases (entry == k)) [
    | inl same ↦
        let e : entry ≡ k = ground arith in
        let before = queued k (rw (on_entry-tasks entry m w) at no_task) in
        subst (λ j. IsDone j (on_entry entry m w).1) e
          (on_entry-answer entry m w calm (subst (λ j. IsDone j w) (sym e) before))
    | inr other ↦ λ pending found.
        queued k (rw (on_entry-tasks entry m w) at no_task) pending
          (sym (on_entry-other entry k m w other) ∙ found)
  ]

  -- `begin_upload` makes a file one that is uploaded only where it answers with a snapshot.
  begin_upload-calm :
      (h : Held F) (r : Result IoError (Option UploadSnapshot))
      → (Pending.begin_upload F settings.now h).0 ≡ r
      → ((snapshot : UploadSnapshot) → r ≢ ok (some snapshot))
      → is_uploading h.pending.state ≡ false
      → is_uploading (Pending.begin_upload F settings.now h).1.pending.state ≡ false
  unfolding Pending.begin_upload Pending.of_pending Pending.on_disk Pending.change look ◌>>=◌ ◌>>◌
      pure
  begin_upload-calm h r e no_snapshot calm = elim (Bool-cases (Pending.is_busy h.pending.state)) [
    | inl busy ↦ rw busy calm
    | inr free ↦ elim (Result-cases (F.metadata h.pending.current.path h.disk)) [
      | inl (m, found) ↦ absurd (no_snapshot _ (sym (rw (Pending.begin_upload, free, found) at e)))
      | inr (x, failed) ↦ rw (free, failed) calm
    ]
  ]

  -- A task is queued for the entry that an operation has changed.
  appended-IsQueued {ℓ} :
      {A : Type ℓ} (entry : ℕ) (m : OnPending F A) (w : Writeback F T) (task : UploadTask)
      → task.entry ≡ entry
      → IsQueued w
      → (k : ℕ) → has_task k ((on_entry entry m w).1.tasks ++ task ∷ []) ≡ false
      → IsDone k (on_entry entry m w).1
  unfolding has_task
  appended-IsQueued entry m w task mine queued k no_task =
      let both = has_task-append k (on_entry entry m w).1.tasks (task ∷ []) in
      let kept = on_entry-tasks entry m w in
      elim (Bool-cases (entry == k)) [
        | inl same ↦ absurd (ground (arith, both))
        | inr other ↦ λ pending found.
            let before : has_task k (on_entry entry m w).1.tasks ≡ false = ground (arith, both) in
            queued k (rw kept at before) pending (sym (on_entry-other entry k m w other) ∙ found)
      ]

  -- Queueing keeps a task for every upload in progress, also where it fails.
  enqueue-IsQueued :
      (entry : ℕ) (w : Writeback F T) → IsQueued w → IsQueued (enqueue F T settings entry w).1
  unfolding enqueue pure modify
  enqueue-IsQueued entry w queued =
      let begin = Pending.begin_upload F settings.now in
      let kept : (r : Result IoError (Option UploadSnapshot))
          → (on_entry {T = T} entry begin w).0 ≡ r
          → ((snapshot : UploadSnapshot) → r ≢ ok (some snapshot))
          → IsQueued (on_entry entry begin w).1 =
        λ r e no_snapshot.
          on_entry-IsQueued entry begin w (λ h q. begin_upload-calm h r (q ∙ e) no_snapshot)
            queued in
      elim (Bool-cases settings.uploads_paused) [
        | inl paused ↦ rw paused queued
        | inr active ↦ rw active (
            bind-after IsQueued (on_entry entry begin) w
              (λ x e. kept (err x) e (λ snapshot q. absurd cc)) _
              (λ started e. elim (Option-cases started) [
                | inl none_started ↦
                    rw none_started
                      (kept (ok none) (rw none_started at e) (λ snapshot q. absurd cc))
                | inr (snapshot, some_started) ↦ rw some_started (
                    appended-IsQueued entry begin w (record { entry = entry; snapshot = snapshot })
                      refl queued)
              ]))
      ]

  idle_of_free : (state : UploadState) → Pending.is_busy state ≡ false → is_uploading state ≡ false
  idle_of_free UploadState.idle h = refl
  idle_of_free (UploadState.failed text) h = refl
  idle_of_free (UploadState.committed metadata) h = refl
  idle_of_free UploadState.discarded h = refl
  idle_of_free UploadState.uploading h = absurd (ground arith)

  -- Where `begin_upload` fails, the file is not being uploaded.
  begin_upload_err :
      (h : Held F) (x : IoError)
      → (Pending.begin_upload F settings.now h).0 ≡ err x
      → is_uploading (Pending.begin_upload F settings.now h).1.pending.state ≡ false
  unfolding Pending.begin_upload Pending.of_pending Pending.on_disk Pending.change look ◌>>=◌ ◌>>◌
      pure
  begin_upload_err h x e = elim (Bool-cases (Pending.is_busy h.pending.state)) [
    | inl busy ↦ absurd (let q = rw (Pending.begin_upload, busy) at e in cc)
    | inr free ↦ elim (Result-cases (F.metadata h.pending.current.path h.disk)) [
      | inl (m, found) ↦ absurd (let q = rw (Pending.begin_upload, free, found) at e in cc)
      | inr (y, failed) ↦ rw (free, failed) (idle_of_free h.pending.state free)
    ]
  ]

  begin_err-IsDone :
      (entry : ℕ) (w : Writeback F T) (x : IoError)
      → (on_entry entry (Pending.begin_upload F settings.now) w).0 ≡ err x
      → IsDone entry (on_entry entry (Pending.begin_upload F settings.now) w).1
  unfolding on_entry stored
  begin_err-IsDone entry w x e = elim (Option-cases (Map.lookup entry w.store)) [
    | inl missing ↦ rw (on_entry, missing) (λ pending found. absurd (ground arith))
    | inr (old, there) ↦
        let held : Held F = record { disk = w.outside.disk; pending = old } in
        let result = begin_upload_err held x (rw (on_entry, there) at e) in
        rw (on_entry, there)
          (λ pending found.
            let q =
              lookup-insert entry entry (Pending.begin_upload F settings.now held).1.pending
                w.store in
            let same = (nat_eq.beq_iff entry entry).1 refl in ground (arith, q, result))
  ]

  enqueue_err-IsDone :
      (entry : ℕ) (w : Writeback F T) (x : IoError)
      → (enqueue F T settings entry w).0 ≡ err x
      → IsDone entry (enqueue F T settings entry w).1
  unfolding enqueue ◌>>=◌ modify pure
  enqueue_err-IsDone entry w x e = elim (Bool-cases settings.uploads_paused) [
    | inl paused ↦ absurd (let q = rw (enqueue, paused) at e in cc)
    | inr active ↦
        elim (Result-cases (on_entry {T = T} entry (Pending.begin_upload F settings.now) w).0) [
          | inr (y, failed) ↦ rw (active, failed) (begin_err-IsDone entry w y failed)
          | inl (none, begun) ↦ absurd (let q = rw (enqueue, active, begun) at e in cc)
          | inl (some snapshot, begun) ↦ absurd (let q = rw (enqueue, active, begun) at e in cc)
        ]
  ]

  -- In a state where every upload in progress has a task, flushing an entry ends, whether it succeeds
  -- or fails, in a state where the entry's file is not being uploaded.
  pub flush-IsDone :
      (entry : ℕ) (w : Writeback F T) → IsQueued w → IsDone entry (flush F T settings entry w).1
  unfolding flush
  flush-IsDone entry w queued =
      let enqueued = enqueue-IsQueued entry w queued in
      seq-after (IsDone entry) (enqueue F T settings entry) w
        (λ x e. enqueue_err-IsDone entry w x e) _ (λ u e. wait_for_upload-IsDone entry _ enqueued)
