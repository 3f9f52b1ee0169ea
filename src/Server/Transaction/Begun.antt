-- ===== src/Server/Transaction/Begun.antt =====
-- An upload up to the creation of its transaction file, and what follows in either case.
use remote_file_system_in_ru.Base.{◌+◌, ◌%◌, ◌^◌, ◌≡◌, refl, Result, ok, err}
use remote_file_system_in_ru.FileSystem.{FileSystem, FilePath, ErrorKind, create_new}
use remote_file_system_in_ru.Server.Http.{Headers}
use remote_file_system_in_ru.Server.Error.{from_io}
use remote_file_system_in_ru.Server.Storage.{AppState, World, ◌>>=◌, io, next_transaction_id}
use remote_file_system_in_ru.Server.Transaction.{
  Chunks, commit_upload, create_file_atomically, transaction_path_of,
}

module _ (F : FileSystem) (H : Headers) (app : AppState) (w : World F) where
  unfoldable pub opened : Result ErrorKind F.File × F.State
  opened = F.open_file create_new (transaction_path_of F H app w.transaction_counter) w.disk

  -- The world once the transaction file is open.
  unfoldable pub begun : World F
  begun = record { disk = opened.1; transaction_counter = (w.transaction_counter + 1) % 2 ^ 64 }

  module _ (file_path : FilePath) (headers : H.HeaderMap) (chunks : Chunks) where
    pub create_file_atomically-opened :
        (f : F.File)
        → opened.0 ≡ ok f
        → create_file_atomically F H app file_path headers chunks w
          ≡ commit_upload F H app
              (transaction_path_of F H app w.transaction_counter)
              f
              file_path
              headers
              chunks
              begun
    unfolding opened begun create_file_atomically ◌>>=◌ io next_transaction_id
    create_file_atomically-opened f e = rw e refl

    pub create_file_atomically-unopened :
        (error : ErrorKind)
        → opened.0 ≡ err error
        → create_file_atomically F H app file_path headers chunks w
          ≡ (err (from_io error "Could not create transaction file"), begun)
    unfolding opened begun create_file_atomically ◌>>=◌ io next_transaction_id
    create_file_atomically-unopened error e = rw e refl
