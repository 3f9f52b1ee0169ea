-- ===== src/Server/Transaction/Safety.antt =====
-- An upload in a transaction touches no entry but its own: what stood in the tree before stands
-- there afterwards, with the same bytes, also where the upload fails half way.
use remote_file_system_in_ru.Base.{ℕ, suc, arith, ◌≡◌, ◌≢◌, refl, inl, inr, some, Result-cases}
use remote_file_system_in_ru.FileSystem.{FileSystem, FilePath, create_new}
use remote_file_system_in_ru.FileSystem.Laws.{View, Node, file, Keeps, IsPreserving}
use remote_file_system_in_ru.Server.Http.{Headers}
use remote_file_system_in_ru.Server.Storage.{AppState, World}
use remote_file_system_in_ru.Server.Storage.Preserves.{Preserves}
use remote_file_system_in_ru.Server.Transaction.{
  Chunks, commit_upload, create_file_atomically, transaction_path_of,
}
use remote_file_system_in_ru.Server.Transaction.Begun.{
  opened, begun, create_file_atomically-opened, create_file_atomically-unopened,
}
use remote_file_system_in_ru.Server.Transaction.Steps.{commit_upload-Preserves, Keeps-trans}

module _ (F : FileSystem) (V : View F) (law : IsPreserving F V) (H : Headers) (app : AppState)
    (file_path : FilePath) (headers : H.HeaderMap) (chunks : Chunks) (w : World F) (p : FilePath)
    (n : Node) (there : V.tree w.disk p ≡ some n)
    (elsewhere : p ≢ transaction_path_of F H app w.transaction_counter) where
  open-Keeps : (own i : ℕ) → Keeps V own p i w.disk (opened F H app w).1
  unfolding opened
  open-Keeps own i = law.open_file-keeps create_new _ w.disk own p i

  commit-Keeps :
      (f : F.File) (i : ℕ)
      → Keeps V
          (V.inode f)
          p
          i
          w.disk
          (commit_upload F H app
            (transaction_path_of F H app w.transaction_counter)
            f
            file_path
            headers
            chunks
            (begun F H app w)).1.disk
  unfolding begun Preserves
  commit-Keeps f i =
      Keeps-trans F V law H (V.inode f) p i w.disk (opened F H app w).1 _ (open-Keeps (V.inode f) i)
        (commit_upload-Preserves F V law H (V.inode f) p i app _ f file_path headers chunks refl
          elsewhere (begun F H app w))

  -- On a file system with the laws of IsPreserving, an upload in a transaction leaves every entry
  -- other than its own transaction file in place, the destination's included, and a file among
  -- them keeps its bytes, whatever the upload answers.
  pub create_file_atomically-keeps :
      (V.tree (create_file_atomically F H app file_path headers chunks w).1.disk p ≡ some n)
      × ((i : ℕ)
          → n ≡ file i
          → V.bytes (create_file_atomically F H app file_path headers chunks w).1.disk i
            ≡ V.bytes w.disk i)
  unfolding opened begun
  create_file_atomically-keeps = elim (Result-cases (opened F H app w).0) [
    | inl (f, e) ↦ rw (create_file_atomically-opened F H app w file_path headers chunks f e) (
      (commit-Keeps f 0).0 n there,
      λ i same. (commit-Keeps f i).1 (law.create_new-fresh _ w.disk f p i e (rw (← same) there)),
    )
    | inr (error, e) ↦
        rw (create_file_atomically-unopened F H app w file_path headers chunks error e)
          ((open-Keeps 0 0).0 n there, λ i same. (open-Keeps (suc i) i).1 (λ h. omega arith))
  ]
