-- ===== src/Client/Writeback/Uploads/Conflict.antt =====
-- When an upload counts as done.
use remote_file_system_in_ru.Base.{
  ◌≡◌, ◌∙◌, ◌⊎◌, inl, inr, Bool, true, Bool-cases, some, is_some_and, ◌==◌, Result, ok, err,
  Result-cases, arith,
}
use remote_file_system_in_ru.Base.Effect.{◌>>=◌, fail}
use remote_file_system_in_ru.FileSystem.{FileSystem}
use remote_file_system_in_ru.Protocol.{RemoteMetadata}
use remote_file_system_in_ru.Client.Journal.{UploadSnapshot}
use remote_file_system_in_ru.Client.RemotePath
use remote_file_system_in_ru.Client.Api.{Transport, UploadError, upload_status}
use remote_file_system_in_ru.Client.Api.Compare.{
  Outside, conditionally_create_file_from_path, remote_file_matches_local,
}
use remote_file_system_in_ru.Client.Writeback.{Settings}
use remote_file_system_in_ru.Client.Writeback.Uploads.{after_conflict, upload}

module _ (F : FileSystem) (T : Transport) (settings : Settings) (snapshot : UploadSnapshot)
    (w : Outside F T) where
  -- The conditional creation of the remote file.
  abbrev pub creation : Result UploadError RemoteMetadata × Outside F T
  creation =
      conditionally_create_file_from_path F T settings.connection (RemotePath.api snapshot.path)
        snapshot.file_path snapshot.mode snapshot.modified_at w

  -- The comparison of the remote file with the file of the journal, behind the creation.
  abbrev pub comparison : Result UploadError Bool × Outside F T
  comparison =
      remote_file_matches_local F T settings.connection (RemotePath.api snapshot.path)
        snapshot.file_path creation.1

  after_conflict-ok :
      (metadata : RemoteMetadata)
      → (after_conflict F T settings snapshot creation.1).0 ≡ ok metadata
      → comparison.0 ≡ ok true
  unfolding after_conflict ◌>>=◌ fail
  after_conflict-ok metadata h = elim (Result-cases comparison.0) [
    | inr (error, e) ↦ absurd (let q = rw (after_conflict, e) at h in cc)
    | inl (matches, e) ↦ elim (Bool-cases matches) [
      | inl same ↦ rw same at e
      | inr different ↦ absurd (let q = rw (after_conflict, e, ◌>>=◌, different) at h in cc)
    ]
  ]

  -- An upload that succeeds has created the remote file, or it was refused with the status 412
  -- and the remote file was then found to be the same as the file of the journal.
  pub upload-ok :
      (metadata : RemoteMetadata)
      → (upload F T settings snapshot w).0 ≡ ok metadata
      → (creation.0 ≡ ok metadata)
        ⊎ ((error : UploadError) × (creation.0 ≡ err error)
            × (upload_status error ≡ some 412)
            × (comparison.0 ≡ ok true))
  unfolding upload
  upload-ok metadata h = elim (Result-cases creation.0) [
    | inl (found, e) ↦ inl (let q = rw (upload, e) at h in e ∙ q)
    | inr (error, e) ↦ elim (Bool-cases (is_some_and (upload_status error) (λ code. code == 412))) [
      | inl conflict ↦
          inr (error, e, ground arith, after_conflict-ok metadata (rw (upload, e, conflict) at h))
      | inr other ↦ absurd (let q = rw (upload, e, other) at h in cc)
    ]
  ]
