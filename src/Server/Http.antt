-- ===== src/Server/Http.antt =====
-- What the server uses of the `http` and `axum` crates: header maps, status codes and responses.
-- Header maps are a parameter, with the two readings of a header value that the server makes.
use remote_file_system_in_ru.Base.{ℕ, Option, some}
use remote_file_system_in_ru.Base.Bytes.{Bytes, bytes_eq_instance}
use remote_file_system_in_ru.Base.Map
use remote_file_system_in_ru.Base.Map.{Map}

-- `HeaderMap::get`, `HeaderValue::to_str` (an error is `none`) and `HeaderValue::as_bytes`.
pub record Headers : Type 1 where
  pub HeaderMap : Type 0
  pub HeaderValue : Type 0
  pub get : HeaderMap → Bytes → Option HeaderValue
  pub to_str : HeaderValue → Option Bytes
  pub as_bytes : HeaderValue → Bytes

-- Header maps as association lists whose values are all text.
abbrev pub plain_headers : Headers
plain_headers = record {
  HeaderMap = Map Bytes Bytes;
  HeaderValue = Bytes;
  get = λ headers name. Map.lookup name headers;
  to_str = some;
  as_bytes = λ value. value;
}

-- The constants of `StatusCode` that the server answers with.
pub data StatusCode : Type 0 where
  ok created no_content bad_request unauthorized forbidden not_found conflict : StatusCode
  precondition_failed internal_server_error : StatusCode

abbrev pub as_u16 : StatusCode → ℕ
as_u16 ok = 200
as_u16 created = 201
as_u16 no_content = 204
as_u16 bad_request = 400
as_u16 unauthorized = 401
as_u16 forbidden = 403
as_u16 not_found = 404
as_u16 conflict = 409
as_u16 precondition_failed = 412
as_u16 internal_server_error = 500
