-- ===== src/Client/Journal/Pending/Busy.antt =====
-- What a pending file refuses while it is being uploaded, and afterwards.
use remote_file_system_in_ru.Base.{ℕ, ◌≡◌, refl, true, none, Result, ok, err, arith}
use remote_file_system_in_ru.Base.Bytes.{Bytes}
use remote_file_system_in_ru.Base.Effect.{◌>>=◌, ◌>>◌, pure, lift}
use remote_file_system_in_ru.FileSystem.{FileSystem, SystemTime}
use remote_file_system_in_ru.Client.Journal.{
  IoError, UploadState, idle, uploading, committed, failed, discarded, OnDisk,
}
use remote_file_system_in_ru.Client.Journal.Pending.{
  Held, require_idle, is_busy, of_pending, change_version, write_bytes, set_size, write_at, resize,
  begin_upload,
}

busy-require_idle :
    (state : UploadState) → is_busy state ≡ true → (e : IoError) × (require_idle state ≡ err e)
busy-require_idle uploading h = (_, refl)
busy-require_idle (committed metadata) h = (_, refl)
busy-require_idle discarded h = (_, refl)
busy-require_idle idle h = absurd (ground arith)
busy-require_idle (failed text) h = absurd (ground arith)

module _ (F : FileSystem) (h : Held F) (busy : is_busy h.pending.state ≡ true) where
  -- A refused change fails and leaves the disk and the pending file.
  abbrev pub Refuses {ℓ} : {A : Type ℓ} → Result IoError A × Held F → Type ℓ
  Refuses answer = (e : IoError) × (answer ≡ (err e, h))

  change_version-Refuses :
      (end : ℕ) (mutation : F.File → OnDisk F F.File) → Refuses (change_version F end mutation h)
  unfolding change_version of_pending lift ◌>>=◌ ◌>>◌
  change_version-Refuses end mutation =
      let (e, refused) = busy-require_idle h.pending.state busy in (e, rw refused refl)

  -- While a pending file is being uploaded, and when its upload has succeeded or it was discarded,
  -- writing and resizing fail and change neither the disk nor the file, and no second upload begins.
  pub busy-Refuses :
      (bytes : Bytes) (offset size : ℕ) (now : SystemTime)
      → Refuses (write_at F bytes offset h)
        × Refuses (resize F size h)
        × (begin_upload F now h ≡ (ok none, h))
  unfolding write_at resize begin_upload of_pending ◌>>=◌ pure
  busy-Refuses bytes offset size now = (
    change_version-Refuses offset (write_bytes F bytes offset),
    change_version-Refuses size (set_size F size),
    rw busy refl,
  )
