-- ===== src/Client/Api.antt =====
-- `client/src/api.rs`: the requests of the client. Sending a request is a parameter, with the state
-- of whatever answers, and so is the reading of JSON. Log lines are left out.
pub mod Url
pub mod Calls
pub mod Compare
pub mod Encoding
pub mod Wire
use remote_file_system_in_ru.Base.{
  ℕ, ◌&&◌, Option, none, some, List, [], ◌∷◌, ◌++◌, leb, ltb, Result, ok, err, if◌then◌else◌,
}
use remote_file_system_in_ru.Base.Bytes.{Bytes}
use remote_file_system_in_ru.Base.Effect.{Effect}
use remote_file_system_in_ru.FileSystem.{ErrorKind, FileSystem}
use remote_file_system_in_ru.Protocol.{DirectoryEntry, RemoteMetadata, RenameRequest}
use remote_file_system_in_ru.Client.Journal.{IoError}

pub data Method : Type 0 where
  get post put patch delete : Method

-- The body of a request. A stream reads a file, which may fail.
pub data RequestBody : Type 0 where
  empty : RequestBody
  bytes : Bytes → RequestBody
  json_rename : RenameRequest → RequestBody
  stream : Result ErrorKind Bytes → RequestBody

pub record Request : Type 0 where
  pub method : Method
  pub url : Bytes
  pub headers : List (Bytes × Bytes)
  pub body : RequestBody

-- `reqwest::Error`: of a status, or any other.
pub data HttpError : Type 0 where
  of_status : ℕ → HttpError
  transport : HttpError

-- `error.status()`.
abbrev pub status : HttpError → Option ℕ
status (of_status code) = some code
status transport = none

pub record HttpResponse : Type 0 where
  pub status_code : ℕ
  pub response_body : Result HttpError Bytes

pub record Transport : Type 1 where
  pub State : Type 0
  pub send : Request → State → Result HttpError HttpResponse × State
  pub json_entries : Bytes → Option (List DirectoryEntry)
  pub json_metadata : Bytes → Option RemoteMetadata

pub data UploadError : Type 0 where
  io : IoError → UploadError
  http : HttpError → UploadError

-- `UploadError::status`.
unfoldable pub upload_status : UploadError → Option ℕ
upload_status (io error) = none
upload_status (http error) = status error

-- The server that is called, and the token of the environment.
pub record Connection : Type 0 where
  pub base_url : Bytes
  pub token : Option Bytes

abbrev pub Call {ℓ} : Transport → Type ℓ → Type ℓ
Call T A = Effect T.State HttpError A

-- `error_for_status`: client and server errors are errors.
unfoldable pub error_for_status : HttpResponse → Result HttpError HttpResponse
error_for_status response =
    if leb 400 response.status_code && ltb response.status_code 600
    then err (of_status response.status_code)
    else ok response
