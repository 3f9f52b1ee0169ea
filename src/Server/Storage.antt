-- ===== src/Server/Storage.antt =====
-- Handlers: they read and change the disk and the transaction counter, and fail with a
-- `StorageError`. What was changed before a failure stays changed.
pub mod Preserves
use remote_file_system_in_ru.Base.{ℕ, ◌+◌, ◌%◌, ◌^◌, String, Option, List, Result, ok, err, map_err}
use remote_file_system_in_ru.Base.Bytes.{Bytes}
use remote_file_system_in_ru.FileSystem.{ErrorKind, FilePath, FileSystem}
use remote_file_system_in_ru.Protocol.{DirectoryEntry, RemoteMetadata}
use remote_file_system_in_ru.Server.Error.{StorageError, from_io}
use remote_file_system_in_ru.Server.Http.{StatusCode}

-- `AppState`, and the static `TRANSACTION_COUNTER`. The mutation lock is not a field: a handler
-- runs alone here.
pub record AppState : Type 0 where
  pub root_dir : FilePath
  pub transaction_dir : FilePath
  pub auth_token : Option Bytes
  pub process_id : ℕ

pub record World (F : FileSystem) : Type 0 where
  pub disk : F.State
  pub transaction_counter : ℕ

-- The body of a response. That of a read is a stream, which may still fail.
pub data Body : Type 0 where
  empty : Body
  json_metadata : RemoteMetadata → Body
  json_entries : List DirectoryEntry → Body
  stream : Result ErrorKind Bytes → Body

pub record Response : Type 0 where
  pub status : StatusCode
  pub body : Body

abbrev pub Handler {ℓ} : FileSystem → Type ℓ → Type ℓ
Handler F A = World F → Result StorageError A × World F

module _ {F : FileSystem} where
  abbrev pub continue {ℓ κ} :
      {A : Type ℓ} {B : Type κ} → Result StorageError A → (A → Handler F B) → Handler F B
  continue (ok a) f w = f a w
  continue (err e) f w = (err e, w)

  infixl 5 ◌>>=◌ ◌>>◌
  unfoldable pub ◌>>=◌ {ℓ κ} :
      {A : Type ℓ} {B : Type κ} → Handler F A → (A → Handler F B) → Handler F B
  ◌>>=◌ m f w = let (r, w') = m w in continue r f w'

  unfoldable pub ◌>>◌ {ℓ κ} : {A : Type ℓ} {B : Type κ} → Handler F A → Handler F B → Handler F B
  ◌>>◌ m n w = let (r, w') = m w in continue r (λ _. n) w'

  unfoldable pub pure {ℓ} : {A : Type ℓ} → A → Handler F A
  pure a w = (ok a, w)

  unfoldable pub fail {ℓ} : {A : Type ℓ} → StorageError → Handler F A
  fail e w = (err e, w)

  unfoldable pub lift {ℓ} : {A : Type ℓ} → Result StorageError A → Handler F A
  lift r w = (r, w)

  -- An operation that only reads the disk, with the message for a missing path.
  unfoldable pub look {ℓ} : {A : Type ℓ} → String → (F.State → Result ErrorKind A) → Handler F A
  look message read w = (map_err (λ e. from_io e message) (read w.disk), w)

  -- An operation that changes the disk, `….await.map_err(|error| StorageError::from_io(error, …))`.
  unfoldable pub io {ℓ} :
      {A : Type ℓ} → String → (F.State → Result ErrorKind A × F.State) → Handler F A
  io message act w =
      let (r, disk) = act w.disk in (map_err (λ e. from_io e message) r, record w { disk = disk })

  -- `TRANSACTION_COUNTER.fetch_add(1)` of a `u64`.
  unfoldable pub next_transaction_id : Handler F ℕ
  next_transaction_id w = (
    ok w.transaction_counter,
    record w { transaction_counter = (w.transaction_counter + 1) % 2 ^ 64 },
  )
