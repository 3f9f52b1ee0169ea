-- ===== src/Server/Error.antt =====
-- `server/src/error.rs`: the errors of a storage operation and the HTTP status of each.
use remote_file_system_in_ru.Base.{String}
use remote_file_system_in_ru.FileSystem.{ErrorKind}
use remote_file_system_in_ru.Server.Http.{StatusCode}

pub data StorageError : Type 0 where
  bad_request not_found forbidden conflict : String → StorageError
  precondition_failed request_body : String → StorageError
  io : ErrorKind → StorageError

unfoldable pub from_io : ErrorKind → String → StorageError
from_io ErrorKind.not_found message = StorageError.not_found message
from_io ErrorKind.already_exists message = conflict "Path already exists"
from_io ErrorKind.permission_denied message = forbidden "Permission denied"
from_io ErrorKind.invalid_input message = bad_request "Invalid path"
from_io ErrorKind.not_a_directory message = bad_request "Invalid path"
from_io ErrorKind.is_a_directory message = bad_request "Invalid path"
from_io ErrorKind.directory_not_empty message = conflict "Directory not empty"
from_io kind message = io kind

-- `into_response`: the status and the text of the body.
unfoldable pub into_response : StorageError → StatusCode × String
into_response (bad_request message) = (StatusCode.bad_request, message)
into_response (StorageError.not_found message) = (StatusCode.not_found, message)
into_response (forbidden message) = (StatusCode.forbidden, message)
into_response (conflict message) = (StatusCode.conflict, message)
into_response (precondition_failed message) = (StatusCode.precondition_failed, message)
into_response (request_body message) = (StatusCode.bad_request, message)
into_response (io kind) = (StatusCode.internal_server_error, "Storage error")
