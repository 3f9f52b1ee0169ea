-- ===== src/Client/Api/Url.antt =====
-- The URL of a request and its headers.
use mathlib.Core.List.{reverse}
use remote_file_system_in_ru.Base.{
  ℕ, ◌+◌, ◌/◌, ◌%◌, Bool, ◌&&◌, ◌||◌, not, Option, none, some, List, [], ◌∷◌, ◌++◌, leb, ltb, ◌==◌,
  if◌then◌else◌,
}
use remote_file_system_in_ru.Base.Bytes.{Bytes, codes, bytes_eq}
use remote_file_system_in_ru.FileSystem.{SystemTime, before_epoch, since_epoch}
use remote_file_system_in_ru.Protocol.{file_mode, file_uid, file_gid, file_mtime}
use remote_file_system_in_ru.Text.Radix.{format}
use remote_file_system_in_ru.Text.Slashes.{trim_end, trim_matches, split, join}
use remote_file_system_in_ru.Client.Api.{Connection, Method, Request, RequestBody}

-- `is_ascii_alphanumeric() || matches!(byte, b'-' | b'.' | b'_' | b'~')`.
unfoldable pub is_unreserved : ℕ → Bool
is_unreserved byte =
    leb b'a' byte && leb byte b'z'
    || leb b'A' byte && leb byte b'Z'
    || leb b'0' byte && leb byte b'9'
    || byte == b'-'
    || byte == b'.'
    || byte == b'_'
    || byte == b'~'

-- A hexadecimal digit, in upper case.
unfoldable pub hex_digit : ℕ → ℕ
hex_digit n = if ltb n 10 then 48 + n else 55 + n

-- One byte of a component: itself, or `%{byte:02X}`.
unfoldable pub encode_byte : ℕ → Bytes
unfolding is_unreserved hex_digit
encode_byte byte =
    if is_unreserved byte
    then byte ∷ []
    else b'%' ∷ hex_digit (byte / 16) ∷ hex_digit (byte % 16) ∷ []

unfoldable pub encode_component : Bytes → Bytes
unfolding encode_byte
encode_component [] = []
encode_component (byte ∷ component) = encode_byte byte ++ encode_component component

unfoldable pub encode_components : List Bytes → List Bytes
unfolding encode_component
encode_components [] = []
encode_components (component ∷ components) =
    encode_component component ∷ encode_components components

unfoldable pub encode_api_path : Bytes → Bytes
unfolding encode_components trim_matches split join
encode_api_path path = join (encode_components (split (trim_matches path)))

unfoldable pub endpoint_url : Bytes → Bytes → Bytes → Bytes
unfolding encode_api_path trim_end
endpoint_url base_url endpoint path =
    trim_end base_url ++ (codes "/" ++ (endpoint ++ (codes "/" ++ encode_api_path path)))

-- The white space of Unicode in UTF-8, which is one, two or three bytes long.
abbrev pub is_space : ℕ → Bool
is_space c = leb 9 c && leb c 13 || c == 32

abbrev pub is_space_of_two : ℕ → ℕ → Bool
is_space_of_two c d = c == 0xC2 && (d == 0x85 || d == 0xA0)

abbrev pub is_space_of_three : ℕ → ℕ → ℕ → Bool
is_space_of_three c d e =
    c == 0xE1 && d == 0x9A && e == 0x80
    || c == 0xE2 && d == 0x80 && (leb 0x80 e && leb e 0x8A || e == 0xA8 || e == 0xA9 || e == 0xAF)
    || c == 0xE2 && d == 0x81 && e == 0x9F
    || c == 0xE3 && d == 0x80 && e == 0x80

-- The text without the white space at its front.
unfoldable pub drop_spaces : (ℕ → ℕ → Bool) → (ℕ → ℕ → ℕ → Bool) → Bytes → Bytes
drop_spaces two three [] = []
drop_spaces two three (c ∷ []) = if is_space c then [] else c ∷ []
drop_spaces two three (c ∷ d ∷ []) =
    let rest = drop_spaces two three (d ∷ []) in
    if is_space c then rest else if two c d then [] else c ∷ d ∷ []
drop_spaces two three (c ∷ d ∷ e ∷ s) =
    let after_one = drop_spaces two three (d ∷ e ∷ s) in
    let after_two = drop_spaces two three (e ∷ s) in
    let after_three = drop_spaces two three s in
    if is_space c
    then after_one
    else if two c d
    then after_two
    else if three c d e
    then after_three
    else c ∷ d ∷ e ∷ s

-- `str::trim`: the bytes are read from the front, and then from the end.
unfoldable pub trim : Bytes → Bytes
unfolding drop_spaces
trim text = reverse (
    drop_spaces (λ d c. is_space_of_two c d) (λ e d c. is_space_of_three c d e)
      (reverse (drop_spaces is_space_of_two is_space_of_three text)))

-- The header of `bearer_auth`, for a token that is not blank.
unfoldable pub authorization : Option Bytes → List (Bytes × Bytes)
unfolding trim bytes_eq
authorization none = []
authorization (some token) =
    if not (bytes_eq (trim token) [])
    then (codes "authorization", codes "Bearer " ++ trim token) ∷ []
    else []

-- `authenticated` of a request to an endpoint.
unfoldable pub request_to : Connection → Method → Bytes → RequestBody → Request
unfolding authorization
request_to connection method url body = record {
  method = method;
  url = url;
  headers = authorization connection.token;
  body = body;
}

unfoldable pub with_header : Bytes → Bytes → Request → Request
with_header name value request = record request { headers = request.headers ++ (name, value) ∷ [] }

unfoldable pub unix_seconds_from_system_time : SystemTime → ℕ
unix_seconds_from_system_time before_epoch = 0
unix_seconds_from_system_time (since_epoch seconds nanoseconds) = seconds

abbrev pub optional_header {ℓ} : {A : Type ℓ} → Bytes → (A → Bytes) → Option A → Request → Request
optional_header name print none request = request
optional_header name print (some value) request = with_header name (print value) request

unfoldable pub add_optional_metadata_headers :
    Request → Option ℕ → Option ℕ → Option ℕ → Option SystemTime → Request
unfolding with_header unix_seconds_from_system_time
add_optional_metadata_headers request mode uid gid modified_at =
    optional_header file_mtime (λ time. format 10 (unix_seconds_from_system_time time)) modified_at
      (optional_header file_gid (format 10) gid (
        optional_header file_uid (format 10) uid
          (optional_header file_mode (λ m. format 8 (m % 4096)) mode request)))
