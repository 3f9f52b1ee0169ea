-- ===== src/Client/Api/Calls.antt =====
-- The calls that send one request.
use remote_file_system_in_ru.Base.{
  ℕ, Bool, Option, none, some, List, [], ◌++◌, Result, ok, err, ok_or,
}
use remote_file_system_in_ru.Base.Bytes.{Bytes, codes}
use remote_file_system_in_ru.Base.Effect.{◌>>=◌, ◌>>◌, pure, lift}
use remote_file_system_in_ru.FileSystem.{SystemTime}
use remote_file_system_in_ru.Protocol.{
  DirectoryEntry, RemoteMetadata, file_offset, file_size, file_truncate,
}
use remote_file_system_in_ru.Text.Radix.{format}
use remote_file_system_in_ru.Text.Slashes.{trim_end, trim_start}
use remote_file_system_in_ru.Client.Api.{
  Method, RequestBody, Request, HttpError, transport, HttpResponse, Transport, Connection, Call,
  error_for_status,
}
use remote_file_system_in_ru.Client.Api.Url.{
  endpoint_url, request_to, with_header, add_optional_metadata_headers,
}

module _ (T : Transport) where
  -- `send().await?.error_for_status()?`.
  unfoldable pub exchange : Request → Call T HttpResponse
  unfolding error_for_status
  exchange request = do response ← T.send request; lift (error_for_status response)

  -- `.json::<RemoteMetadata>()`.
  unfoldable pub metadata_of : HttpResponse → Result HttpError RemoteMetadata
  metadata_of response = elim response.response_body [
    | err error ↦ err error
    | ok text ↦ ok_or (T.json_metadata text) transport
  ]

  unfoldable pub entries_of : HttpResponse → Result HttpError (List DirectoryEntry)
  entries_of response = elim response.response_body [
    | err error ↦ err error
    | ok text ↦ ok_or (T.json_entries text) transport
  ]

  unfoldable pub exchange_metadata : Request → Call T RemoteMetadata
  unfolding exchange metadata_of
  exchange_metadata request = do response ← exchange request; lift (metadata_of response)

  unfoldable pub exchange_empty : Request → Call T (Unit {0})
  unfolding exchange
  exchange_empty request = do exchange request; pure tt

module _ (T : Transport) (connection : Connection) where
  unfoldable pub endpoint : Method → Bytes → Bytes → RequestBody → Request
  unfolding request_to endpoint_url
  endpoint method name path body =
      request_to connection method (endpoint_url connection.base_url name path) body

  unfoldable pub list_directory : Bytes → Call T (List DirectoryEntry)
  unfolding exchange endpoint entries_of
  list_directory path = do
    response ← exchange T (endpoint Method.get (codes "list") path RequestBody.empty)
    lift (entries_of T response)

  unfoldable pub get_metadata : Bytes → Call T RemoteMetadata
  unfolding exchange_metadata endpoint
  get_metadata path =
      exchange_metadata T (endpoint Method.get (codes "metadata") path RequestBody.empty)

  unfoldable pub read_file : Bytes → ℕ → ℕ → Call T Bytes
  unfolding exchange endpoint with_header
  read_file path offset size = do
    response ← exchange T (
        with_header file_size (format 10 size) (
          with_header file_offset (format 10 offset)
            (endpoint Method.get (codes "files") path RequestBody.empty)))
    lift response.response_body

  unfoldable pub create_directory : Bytes → ℕ → Call T RemoteMetadata
  unfolding exchange_metadata endpoint add_optional_metadata_headers
  create_directory path mode = exchange_metadata T (
      add_optional_metadata_headers (endpoint Method.post (codes "mkdir") path RequestBody.empty)
        (some mode) none none none)

  -- The request of `conditionally_create_file_from_path`, for the body that the file gives.
  unfoldable pub conditional_put : Bytes → RequestBody → ℕ → SystemTime → Request
  unfolding endpoint with_header add_optional_metadata_headers
  conditional_put path body mode modified_at =
      add_optional_metadata_headers
        (with_header (codes "If-None-Match") (codes "*")
          (endpoint Method.put (codes "files") path body))
        (some mode) none none (some modified_at)

  unfoldable pub write_file : Bytes → Bytes → ℕ → Call T RemoteMetadata
  unfolding exchange_metadata endpoint with_header
  write_file path contents offset = exchange_metadata T (
      with_header file_offset (format 10 offset)
        (endpoint Method.put (codes "files") path (RequestBody.bytes contents)))

  unfoldable pub resize_file : Bytes → ℕ → Call T RemoteMetadata
  unfolding exchange_metadata endpoint with_header
  resize_file path size = exchange_metadata T (
      with_header file_truncate (format 10 size)
        (endpoint Method.put (codes "files") path (RequestBody.bytes [])))

  unfoldable pub overwrite_file : Bytes → Option ℕ → Call T RemoteMetadata
  unfolding exchange_metadata endpoint with_header add_optional_metadata_headers
  overwrite_file path mode = exchange_metadata T (
      add_optional_metadata_headers
        (with_header file_truncate (codes "0")
          (endpoint Method.put (codes "files") path (RequestBody.bytes [])))
        mode none none none)

  unfoldable pub update_metadata :
      Bytes → Option ℕ → Option ℕ → Option ℕ → Option SystemTime → Call T RemoteMetadata
  unfolding exchange_metadata endpoint add_optional_metadata_headers
  update_metadata path mode uid gid modified_at = exchange_metadata T (
      add_optional_metadata_headers
        (endpoint Method.patch (codes "metadata") path RequestBody.empty) mode uid gid modified_at)

  unfoldable pub delete_file : Bytes → Call T (Unit {0})
  unfolding exchange_empty endpoint
  delete_file path =
      exchange_empty T (endpoint Method.delete (codes "files") path RequestBody.empty)

  unfoldable pub delete_directory : Bytes → Call T (Unit {0})
  unfolding exchange_empty endpoint
  delete_directory path =
      exchange_empty T (endpoint Method.delete (codes "directories") path RequestBody.empty)

  unfoldable pub rename_file : Bytes → Bytes → Bool → Call T (Unit {0})
  unfolding exchange_empty request_to trim_end trim_start
  rename_file from to replace_if_exists = exchange_empty T (
      request_to connection Method.post (trim_end connection.base_url ++ codes "/rename") (
        RequestBody.json_rename (record {
          from = trim_start from;
          to = trim_start to;
          replace_if_exists = replace_if_exists;
        })))
