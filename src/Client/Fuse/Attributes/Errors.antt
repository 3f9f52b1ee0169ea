-- ===== src/Client/Fuse/Attributes/Errors.antt =====
-- Responses of the server to failures of its disk, as the callbacks of the mount report them.
use remote_file_system_in_ru.Base.{String, ℕ, ◌≡◌, refl, ◌∙◌, Result, ok, err}
use remote_file_system_in_ru.Base.Effect.{map_error, lift, bind-ok, bind-err, seq-err}
use remote_file_system_in_ru.Base.Bytes.{Bytes}
use remote_file_system_in_ru.FileSystem.{ErrorKind, FileSystem}
use remote_file_system_in_ru.Server.Http.{as_u16}
use remote_file_system_in_ru.Server.Error.{from_io, into_response}
use remote_file_system_in_ru.Client.Api.{
  HttpError, of_status, Request, HttpResponse, Transport, Call, error_for_status,
}
use remote_file_system_in_ru.Client.Api.Calls.{
  exchange, exchange_metadata, exchange_empty, list_directory, read_file, write_file, resize_file,
  delete_file, delete_directory, rename_file,
}
use remote_file_system_in_ru.Client.Fuse.{
  RemoteFs, MountSettings, Errno, einval, eacces, enoent, eexist, eio, enotempty,
}
use remote_file_system_in_ru.Client.Fuse.Attributes.{errno_from_api_error, errno_from_rmdir_error}
use remote_file_system_in_ru.Client.Fuse.Directories.{block_on, fetch_directory}
use remote_file_system_in_ru.Client.Fuse.Ops.Contents.{
  call_api, read_remote, write_remote, resize_remote,
}
use remote_file_system_in_ru.Client.Fuse.Ops.Entries.{unlink_remote, rmdir_remote, rename_remote}

-- The number for an error of the server's disk, in general and where a directory is removed.
abbrev pub remote_errno : ErrorKind → Errno
remote_errno ErrorKind.not_found = enoent
remote_errno ErrorKind.already_exists = eexist
remote_errno ErrorKind.directory_not_empty = eexist
remote_errno ErrorKind.permission_denied = eacces
remote_errno ErrorKind.invalid_input = einval
remote_errno ErrorKind.not_a_directory = einval
remote_errno ErrorKind.is_a_directory = einval
remote_errno kind = eio

abbrev pub rmdir_errno : ErrorKind → Errno
rmdir_errno ErrorKind.not_found = enoent
rmdir_errno ErrorKind.already_exists = enotempty
rmdir_errno ErrorKind.directory_not_empty = enotempty
rmdir_errno ErrorKind.permission_denied = eacces
rmdir_errno ErrorKind.invalid_input = einval
rmdir_errno ErrorKind.not_a_directory = einval
rmdir_errno ErrorKind.is_a_directory = einval
rmdir_errno kind = eio

-- What the server answers where its disk fails.
abbrev pub failure : ErrorKind → String → Result HttpError Bytes → HttpResponse
failure kind message body = record {
  status_code = as_u16 (into_response (from_io kind message)).0;
  response_body = body;
}

-- The error that the client makes of such a response, with its two numbers.
error_for_status-failure :
    (kind : ErrorKind) (message : String) (body : Result HttpError Bytes)
    → (error : HttpError) × (error_for_status (failure kind message body) ≡ err error)
      × (errno_from_api_error error ≡ remote_errno kind)
      × (errno_from_rmdir_error error ≡ rmdir_errno kind)
unfolding error_for_status from_io into_response errno_from_api_error errno_from_rmdir_error
error_for_status-failure ErrorKind.not_found message body = (of_status 404, refl, refl, refl)
error_for_status-failure ErrorKind.already_exists message body = (of_status 409, refl, refl, refl)
error_for_status-failure ErrorKind.directory_not_empty message body =
    (of_status 409, refl, refl, refl)
error_for_status-failure ErrorKind.permission_denied message body =
    (of_status 403, refl, refl, refl)
error_for_status-failure ErrorKind.invalid_input message body = (of_status 400, refl, refl, refl)
error_for_status-failure ErrorKind.not_a_directory message body = (of_status 400, refl, refl, refl)
error_for_status-failure ErrorKind.is_a_directory message body = (of_status 400, refl, refl, refl)
error_for_status-failure kind message body = (of_status 500, refl, refl, refl)

module _ (F : FileSystem) (T : Transport) (mount : MountSettings) (s : RemoteFs F T)
    (remote : T.State) where
  -- The mount with another state of the server.
  abbrev pub answered : RemoteFs F T
  answered = record s {
    writeback = record s.writeback { outside = record s.writeback.outside { remote = remote } };
  }

  module _ (error : HttpError) (response : HttpResponse)
      (refuses : error_for_status response ≡ err error)
      (answers : (request : Request)
        → T.send request s.writeback.outside.remote ≡ (ok response, remote)) where
    exchange-err :
        (request : Request) → exchange T request s.writeback.outside.remote ≡ (err error, remote)
    unfolding exchange lift
    exchange-err request =
        bind-ok (T.send request) (λ got. lift (error_for_status got)) s.writeback.outside.remote
          remote response (answers request)
        ∙ rw refuses refl

    exchange_metadata-err :
        (request : Request)
        → exchange_metadata T request s.writeback.outside.remote ≡ (err error, remote)
    unfolding exchange_metadata
    exchange_metadata-err request =
        bind-err (exchange T request) s.writeback.outside.remote remote error (exchange-err request)
          _

    exchange_empty-err :
        (request : Request)
        → exchange_empty T request s.writeback.outside.remote ≡ (err error, remote)
    unfolding exchange_empty
    exchange_empty-err request =
        seq-err (exchange T request) s.writeback.outside.remote remote error (exchange-err request)
          _

    block_on-err {ℓ} :
        {A : Type ℓ} (convert : HttpError → Errno) (errno : Errno) (m : Call T A)
        → convert error ≡ errno
        → m s.writeback.outside.remote ≡ (err error, remote)
        → map_error convert (block_on {F = F} m) s ≡ (err errno, answered)
    unfolding map_error block_on
    block_on-err convert errno m number e = rw (e, number) refl

module _ (F : FileSystem) (T : Transport) (mount : MountSettings) (s : RemoteFs F T)
    (remote : T.State) (kind : ErrorKind) (message : String) (body : Result HttpError Bytes) where
  -- Where the server answers whatever request comes next with the response made of a failure of
  -- its disk, by from_io and into_response, these fail: fetching a listing, and the parts of read,
  -- write, resize, unlink and rename that ask the server at once, with ENOENT for not found,
  -- EEXIST for already exists and directory not empty, EACCES for permission denied, EINVAL for
  -- invalid input, not a directory and is a directory, and EIO for any other kind; and that part
  -- of rmdir in the same way, with ENOTEMPTY in place of EEXIST. Nothing of the mount's state
  -- changes but the server's.
  pub errno-from_io :
      ((request : Request)
        → T.send request s.writeback.outside.remote ≡ (ok (failure kind message body), remote))
      → (path from to contents : Bytes) (ino fh offset size : ℕ)
      → (fetch_directory F T mount path s ≡ (err (remote_errno kind), answered F T mount s remote))
        × (read_remote F T mount path offset size s
            ≡ (err (remote_errno kind), answered F T mount s remote))
        × (write_remote F T mount ino fh path contents offset s
            ≡ (err (remote_errno kind), answered F T mount s remote))
        × (resize_remote F T mount path size s
            ≡ (err (remote_errno kind), answered F T mount s remote))
        × (unlink_remote F T mount path s ≡ (err (remote_errno kind), answered F T mount s remote))
        × (rename_remote F T mount from to s
            ≡ (err (remote_errno kind), answered F T mount s remote))
        × (rmdir_remote F T mount path s ≡ (err (rmdir_errno kind), answered F T mount s remote))
  unfolding fetch_directory read_remote write_remote resize_remote unlink_remote rename_remote
      rmdir_remote call_api list_directory read_file write_file resize_file delete_file rename_file
      delete_directory
  errno-from_io answers path from to contents ino fh offset size =
      let (error, refuses, general, for_rmdir) = error_for_status-failure kind message body in
      let exchange_fails = exchange-err F T mount s remote error _ refuses answers in
      let empty_fails = exchange_empty-err F T mount s remote error _ refuses answers in
      let metadata_fails = exchange_metadata-err F T mount s remote error _ refuses answers in
      let held = answered F T mount s remote in
      let call : (A : Type 0) (m : Call T A)
          → m s.writeback.outside.remote ≡ (err error, remote)
          → map_error errno_from_api_error (block_on m) s ≡ (err (remote_errno kind), held) =
        λ A m e. block_on-err F T mount s remote error _ refuses answers _ _ m general e in
      (
        bind-err _ s held _
            (call _ _ (bind-err _ s.writeback.outside.remote remote error (exchange_fails _) _)) _,
        call _ _ (bind-err _ s.writeback.outside.remote remote error (exchange_fails _) _),
        bind-err _ s held _ (call _ _ (metadata_fails _)) _,
        bind-err _ s held _ (call _ _ (metadata_fails _)) _,
        seq-err _ s held _ (call _ _ (empty_fails _)) _,
        seq-err _ s held _ (call _ _ (empty_fails _)) _,
        seq-err _ s held _
            (block_on-err F T mount s remote error _ refuses answers errno_from_rmdir_error _ _
              for_rmdir (empty_fails _))
            _,
      )
