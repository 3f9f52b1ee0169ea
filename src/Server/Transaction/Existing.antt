-- ===== src/Server/Transaction/Existing.antt =====
-- An upload in a transaction is create-only: it fails where the destination exists.
use remote_file_system_in_ru.Base.{
  ◌≡◌, ◌≢◌, refl, ap, inl, inr, some, Result, ok, err, false, Result-cases, is_ok,
}
use remote_file_system_in_ru.FileSystem.{
  FileSystem, FilePath, ErrorKind, Metadata, not_found, create_new,
}
use remote_file_system_in_ru.FileSystem.Laws.{View, Node, IsPreserving}
use remote_file_system_in_ru.Server.Http.{Headers}
use remote_file_system_in_ru.Server.Error.{StorageError}
use remote_file_system_in_ru.Server.Storage.{AppState, World, Handler, continue, ◌>>◌}
use remote_file_system_in_ru.Server.Storage.Preserves.{Preserves}
use remote_file_system_in_ru.Server.Transaction.{
  Chunks, discard, discard_on_error, fill, require_missing, missing, commit_upload,
  create_file_atomically, transaction_path_of,
}
use remote_file_system_in_ru.Server.Transaction.Steps.{fill-Preserves, discard_on_error-Preserves}
use remote_file_system_in_ru.Server.Transaction.Begun.{
  opened, begun, create_file_atomically-opened, create_file_atomically-unopened,
}

module _ (F : FileSystem) where
  missing-error : (kind : ErrorKind) → kind ≢ not_found → is_ok (missing F (err kind)) ≡ false
  unfolding missing
  missing-error not_found h = absurd (h refl)
  missing-error ErrorKind.already_exists h = refl
  missing-error ErrorKind.permission_denied h = refl
  missing-error ErrorKind.invalid_input h = refl
  missing-error ErrorKind.not_a_directory h = refl
  missing-error ErrorKind.is_a_directory h = refl
  missing-error ErrorKind.directory_not_empty h = refl
  missing-error ErrorKind.would_block h = refl
  missing-error ErrorKind.storage_full h = refl
  missing-error ErrorKind.invalid_data h = refl
  missing-error ErrorKind.other h = refl

  missing-some : (r : Result ErrorKind Metadata) → r ≢ err not_found → is_ok (missing F r) ≡ false
  unfolding missing
  missing-some (ok m) h = refl
  missing-some (err kind) h = missing-error kind (λ e. h (ap err e))

  discard-fails :
      {A : Type 0} (a : FilePath) (r : Result StorageError A) (w : World F) (x : A)
      → is_ok r ≡ false
      → (discard F a r w).0 ≢ ok x
  discard-fails a (ok y) w x h e = cc
  discard-fails a (err error) w x h e = cc

  continue-fails :
      {A B : Type 0} (r : Result StorageError A) (n : Handler F B) (w : World F)
      → ((a : A) → r ≡ ok a → is_ok (n w).0 ≡ false)
      → is_ok (continue r (λ _. n) w).0 ≡ false
  continue-fails (ok a) n w h = h a refl
  continue-fails (err error) n w h = refl

  then-fails :
      {A B : Type 0} (m : Handler F A) (n : Handler F B) (w : World F)
      → ((a : A) → (m w).0 ≡ ok a → is_ok (n (m w).1).0 ≡ false)
      → is_ok ((m >> n) w).0 ≡ false
  unfolding ◌>>◌
  then-fails m n w h = continue-fails (m w).0 n (m w).1 h

  require_missing-fails :
      {B : Type 0} (a b : FilePath) (n : Handler F B) (w : World F)
      → F.symlink_metadata b w.disk ≢ err not_found
      → is_ok ((discard_on_error F a (require_missing F b) >> n) w).0 ≡ false
  unfolding require_missing discard_on_error
  require_missing-fails a b n w h = then-fails _ n w (λ x e.
      absurd (discard-fails a (missing F (F.symlink_metadata b w.disk)) w x (missing-some _ h) e))

module _ (F : FileSystem) (V : View F) (law : IsPreserving F V) (H : Headers) (app : AppState)
    (file_path : FilePath) (headers : H.HeaderMap) (chunks : Chunks) (w : World F) (n : Node)
    (there : V.tree w.disk file_path ≡ some n)
    (elsewhere : file_path ≢ transaction_path_of F H app w.transaction_counter) where
  begun-there : V.tree (begun F H app w).disk file_path ≡ some n
  unfolding begun opened
  begun-there = (law.open_file-keeps create_new _ w.disk 0 file_path 0).0 n there

  filled : F.File → Handler F (Unit {0})
  filled f =
      let transaction_path = transaction_path_of F H app w.transaction_counter in
      discard_on_error F transaction_path (fill F H transaction_path f headers chunks)

  filled-there : (f : F.File) → V.tree (filled f (begun F H app w)).1.disk file_path ≡ some n
  unfolding filled Preserves
  filled-there f =
      let transaction_path = transaction_path_of F H app w.transaction_counter in
      let kept =
        discard_on_error-Preserves F V law H (V.inode f) file_path 0 transaction_path
          (fill F H transaction_path f headers chunks) elsewhere
          (fill-Preserves F V law H (V.inode f) file_path 0 transaction_path f headers chunks
            refl) in
      (kept (begun F H app w)).0 n begun-there

  commit_upload-existing :
      (f : F.File)
      → is_ok
          (commit_upload F H app
            (transaction_path_of F H app w.transaction_counter)
            f
            file_path
            headers
            chunks
            (begun F H app w)).0
        ≡ false
  unfolding commit_upload filled
  commit_upload-existing f = then-fails F _ _ _ (λ x e.
      require_missing-fails F _ file_path _ (filled f (begun F H app w)).1 (
        law.symlink_metadata-some file_path (filled f (begun F H app w)).1.disk n (filled-there f)))

  -- On such a file system, an upload in a transaction whose destination is already taken, by
  -- anything at all, fails.
  pub create_file_atomically-existing :
      is_ok (create_file_atomically F H app file_path headers chunks w).0 ≡ false
  create_file_atomically-existing = elim (Result-cases (opened F H app w).0) [
    | inr (error, e) ↦
        rw (create_file_atomically-unopened F H app w file_path headers chunks error e) refl
    | inl (f, e) ↦
        rw (create_file_atomically-opened F H app w file_path headers chunks f e)
          (commit_upload-existing f)
  ]
