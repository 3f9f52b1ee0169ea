-- ===== src/Client/Api/Wire.antt =====
-- The headers of a request as the server reads them: what the client prints is what the server
-- parses, and the token of the client is the one that the server asks for.
use mathlib.Core.Option
use remote_file_system_in_ru.Base.{
  ℕ, ◌%◌, ◌≤◌, ◌≡◌, ◌≢◌, refl, ap, ◌∙◌, All, true, false, Option, none, some, List, [], ◌∷◌, ◌++◌,
  arith, if◌then◌else◌, inl, inr, Bool-cases, Option-cases, ok,
}
use remote_file_system_in_ru.Base.Bytes.{Bytes, codes, bytes_eq, bytes_eq_iff, bytes_eq_instance}
use remote_file_system_in_ru.Base.Map
use remote_file_system_in_ru.FileSystem.{SystemTime}
use remote_file_system_in_ru.Protocol.{file_mode, file_uid, file_gid, file_mtime}
use remote_file_system_in_ru.Text.Radix.{format, u32_max, u64_max, from_str_radix-format}
use remote_file_system_in_ru.Server.Http.{Headers}
use remote_file_system_in_ru.Server.Error.{StorageError}
use remote_file_system_in_ru.Server.Auth.{is_authorized}
use remote_file_system_in_ru.Server.Auth.Laws.{bearer_token_matches_iff}
use remote_file_system_in_ru.Server.Metadata.{
  parse_optional, parse_mode, parse_u32, parse_u64, parse_optional_u32_header,
  parse_optional_u64_header, parse_optional_mode_header,
}
use remote_file_system_in_ru.Server.Metadata.Numbers.{parse_mode-format}
use remote_file_system_in_ru.Client.Api.{Connection, Method, Request, RequestBody}
use remote_file_system_in_ru.Client.Api.Url.{
  trim, authorization, request_to, with_header, unix_seconds_from_system_time, optional_header,
  add_optional_metadata_headers,
}

-- The header of a name arrives as text, and one that is not sent is not there.
unfoldable pub Arrives : (H : Headers) → List (Bytes × Bytes) → H.HeaderMap → Bytes → Type 0
unfolding Map.lookup
Arrives H sent headers name = elim (Map.lookup name sent) [
  | none ↦ H.get headers name ≡ none
  | some text ↦
      (value : H.HeaderValue) × (H.get headers name ≡ some value) × (H.to_str value ≡ some text)
]

lookup-append :
    (name other text : Bytes) (m : List (Bytes × Bytes))
    → Map.lookup name (m ++ (other, text) ∷ []) ≡ elim (Map.lookup name m) [
      | none ↦ if bytes_eq other name then some text else none
      | some found ↦ some found
    ]
unfolding Map.lookup bytes_eq bytes_eq_instance
lookup-append name other text [] = refl
lookup-append name other text ((key, found) ∷ m) = elim (Bool-cases (bytes_eq key name)) [
  | inl same ↦ rw same
  | inr different ↦ rw different (lookup-append name other text m)
]

module _ {ℓ} {A : Type ℓ} (name : Bytes) (print : A → Bytes) where
  lookup-optional_header-other :
      (asked : Bytes) (value : Option A) (request : Request)
      → bytes_eq name asked ≡ false
      → Map.lookup asked (optional_header name print value request).headers
        ≡ Map.lookup asked request.headers
  unfolding with_header
  lookup-optional_header-other asked none request different = refl
  lookup-optional_header-other asked (some a) request different =
      lookup-append asked name (print a) request.headers
      ∙ elim (Option-cases (Map.lookup asked request.headers)) [
        | inl e ↦ rw (e, different)
        | inr (text, e) ↦ rw e
      ]

  lookup-optional_header :
      (value : Option A) (request : Request)
      → Map.lookup name request.headers ≡ none
      → Map.lookup name (optional_header name print value request).headers ≡ Option.map print value
  unfolding with_header Option.map
  lookup-optional_header none request h = h
  lookup-optional_header (some a) request h =
      lookup-append name name (print a) request.headers ∙ rw (h, (bytes_eq_iff name name).1 refl)

-- A header that is printed from a value is parsed to what the server makes of the value.
parse_optional-Arrives {ℓ κ} :
    (H : Headers) {A : Type ℓ} {B : Type κ} (error : StorageError) (parse : Bytes → Option B)
    (print : A → Bytes) (read : A → B) (sent : List (Bytes × Bytes)) (headers : H.HeaderMap)
    (name : Bytes) (value : Option A)
    → Arrives H sent headers name
    → Map.lookup name sent ≡ Option.map print value
    → ((a : A) → value ≡ some a → parse (print a) ≡ some (read a))
    → parse_optional H error parse headers name ≡ ok (Option.map read value)
unfolding Arrives parse_optional Option.map Option.bind
parse_optional-Arrives H error parse print read sent headers name none arrives found reads =
    let gone = rw (found, Arrives) at arrives in rw (parse_optional, gone) refl
parse_optional-Arrives H error parse print read sent headers name (some a) arrives found reads =
    let (v, there, text) = rw (found, Arrives) at arrives in
    rw (parse_optional, there, text, reads a refl) refl

lookup-authorization :
    (name : Bytes) (token : Option Bytes)
    → bytes_eq (codes "authorization") name ≡ false
    → Map.lookup name (authorization token) ≡ none
unfolding authorization Map.lookup bytes_eq_instance
lookup-authorization name none h = refl
lookup-authorization name (some token) h = elim (Bool-cases (bytes_eq (trim token) [])) [
  | inl blank ↦ rw blank refl
  | inr given ↦ rw (given, h) refl
]

abbrev pub Bounded : ℕ → Option ℕ → Type 0
Bounded limit none = Unit
Bounded limit (some n) = n ≤ limit

below : (limit n : ℕ) (o : Option ℕ) → Bounded limit o → o ≡ some n → n ≤ limit
below limit n none h e = absurd (ground arith)
below limit n (some m) h e = ground arith

lookup-authorization-token :
    (given : Option Bytes) (token : Bytes)
    → given ≡ some token
    → trim token ≢ []
    → Map.lookup (codes "authorization") (authorization given)
      ≡ some (codes "Bearer " ++ trim token)
unfolding authorization Map.lookup bytes_eq_instance bytes_eq
lookup-authorization-token given token e not_blank = elim (Bool-cases (bytes_eq (trim token) [])) [
  | inl blank ↦ absurd (not_blank ((bytes_eq_iff (trim token) []).0 blank))
  | inr kept ↦ rw (e, kept) refl
]

map_id {ℓ} : {A : Type ℓ} (o : Option A) → Option.map (λ a. a) o ≡ o
unfolding Option.map
map_id none = refl
map_id (some a) = refl

module _ (connection : Connection) (method : Method) (url : Bytes) (body : RequestBody)
    (mode uid gid : Option ℕ) (modified_at : Option SystemTime) where
  abbrev pub sent_headers : List (Bytes × Bytes)
  sent_headers =
      (add_optional_metadata_headers (request_to connection method url body) mode uid gid
        modified_at).headers

  lookup-file_mode : Map.lookup file_mode sent_headers ≡ Option.map (λ m. format 8 (m % 4096)) mode
  unfolding add_optional_metadata_headers request_to bytes_eq
  lookup-file_mode =
      lookup-optional_header-other _ _ file_mode modified_at _ refl
      ∙ lookup-optional_header-other _ _ file_mode gid _ refl
      ∙ lookup-optional_header-other _ _ file_mode uid _ refl
      ∙ lookup-optional_header _ _ mode _ (lookup-authorization file_mode connection.token refl)

  lookup-file_uid : Map.lookup file_uid sent_headers ≡ Option.map (format 10) uid
  unfolding add_optional_metadata_headers request_to bytes_eq
  lookup-file_uid =
      lookup-optional_header-other _ _ file_uid modified_at _ refl
      ∙ lookup-optional_header-other _ _ file_uid gid _ refl
      ∙ lookup-optional_header _ _ uid _ (
          lookup-optional_header-other _ _ file_uid mode _ refl
          ∙ lookup-authorization file_uid connection.token refl)

  lookup-file_gid : Map.lookup file_gid sent_headers ≡ Option.map (format 10) gid
  unfolding add_optional_metadata_headers request_to bytes_eq
  lookup-file_gid =
      lookup-optional_header-other _ _ file_gid modified_at _ refl
      ∙ lookup-optional_header _ _ gid _ (
          lookup-optional_header-other _ _ file_gid uid _ refl
          ∙ lookup-optional_header-other _ _ file_gid mode _ refl
          ∙ lookup-authorization file_gid connection.token refl)

  lookup-file_mtime :
      Map.lookup file_mtime sent_headers
      ≡ Option.map (λ time. format 10 (unix_seconds_from_system_time time)) modified_at
  unfolding add_optional_metadata_headers request_to bytes_eq
  lookup-file_mtime = lookup-optional_header _ _ modified_at _ (
      lookup-optional_header-other _ _ file_mtime gid _ refl
      ∙ lookup-optional_header-other _ _ file_mtime uid _ refl
      ∙ lookup-optional_header-other _ _ file_mtime mode _ refl
      ∙ lookup-authorization file_mtime connection.token refl)

  -- Where the four metadata headers of a request arrive as they were sent, the server reads the
  -- mode's twelve low bits, the uid, the gid and the seconds of the time that the client set, and
  -- nothing where the client set nothing. The uid and the gid fit 32 bits and the seconds 64.
  pub parse-add_optional_metadata_headers :
      (H : Headers) (headers : H.HeaderMap)
      → All (Arrives H sent_headers headers) (file_mode ∷ file_uid ∷ file_gid ∷ file_mtime ∷ [])
      → Bounded u32_max uid
      → Bounded u32_max gid
      → Bounded u64_max (Option.map unix_seconds_from_system_time modified_at)
      → (parse_optional_mode_header H headers ≡ ok (Option.map (λ m. m % 4096) mode))
        × (parse_optional_u32_header H headers file_uid ≡ ok uid)
        × (parse_optional_u32_header H headers file_gid ≡ ok gid)
        × (parse_optional_u64_header H headers file_mtime
            ≡ ok (Option.map unix_seconds_from_system_time modified_at))
  unfolding parse_optional_mode_header parse_optional_u32_header parse_optional_u64_header
      Option.map
  parse-add_optional_metadata_headers H headers arrives uid_fits gid_fits time_fits = (
    parse_optional-Arrives H _ parse_mode (λ m. format 8 (m % 4096)) (λ m. m % 4096) sent_headers
        headers file_mode mode arrives.0 lookup-file_mode
        (λ m e. parse_mode-format (m % 4096) (omega arith) ∙ ground arith),
    parse_optional-Arrives H _ parse_u32 (format 10) (λ n. n) sent_headers headers file_uid uid
          arrives.1.0 lookup-file_uid
          (λ n e.
            from_str_radix-format 10 u32_max (omega arith) (omega arith) n
              (below u32_max n uid uid_fits e))
        ∙ ap ok (map_id uid),
    parse_optional-Arrives H _ parse_u32 (format 10) (λ n. n) sent_headers headers file_gid gid
          arrives.1.1.0 lookup-file_gid
          (λ n e.
            from_str_radix-format 10 u32_max (omega arith) (omega arith) n
              (below u32_max n gid gid_fits e))
        ∙ ap ok (map_id gid),
    parse_optional-Arrives H _ parse_u64 (λ time. format 10 (unix_seconds_from_system_time time))
        unix_seconds_from_system_time sent_headers headers file_mtime modified_at arrives.1.1.1.0
        lookup-file_mtime
        (λ time e.
          from_str_radix-format 10 u64_max (omega arith) (omega arith)
            (unix_seconds_from_system_time time)
            (below u64_max _ (Option.map unix_seconds_from_system_time modified_at) time_fits
              (ap (Option.map unix_seconds_from_system_time) e))),
  )

  lookup-token :
      (token : Bytes)
      → connection.token ≡ some token
      → trim token ≢ []
      → Map.lookup (codes "authorization") sent_headers ≡ some (codes "Bearer " ++ trim token)
  unfolding add_optional_metadata_headers request_to bytes_eq
  lookup-token token given not_blank =
      lookup-optional_header-other _ _ (codes "authorization") modified_at _ refl
      ∙ lookup-optional_header-other _ _ (codes "authorization") gid _ refl
      ∙ lookup-optional_header-other _ _ (codes "authorization") uid _ refl
      ∙ lookup-optional_header-other _ _ (codes "authorization") mode _ refl
      ∙ lookup-authorization-token connection.token token given not_blank

  -- Where the header of the token arrives, the client's token is not blank, and the server expects
  -- it without the white space around it, the server lets the request pass.
  pub request_to-is_authorized :
      (H : Headers) (headers : H.HeaderMap) (token : Bytes)
      → Arrives H sent_headers headers (codes "authorization")
      → connection.token ≡ some token
      → trim token ≢ []
      → is_authorized H (trim token) headers ≡ true
  unfolding Option.bind Arrives
  request_to-is_authorized H headers token arrives given not_blank =
      let (v, there, text) = rw (lookup-token token given not_blank, Arrives) at arrives in
      rw (there, text)
        ((bearer_token_matches_iff (codes "Bearer " ++ trim token) (trim token)).1 refl)
