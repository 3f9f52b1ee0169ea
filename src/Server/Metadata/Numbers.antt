-- ===== src/Server/Metadata/Numbers.antt =====
-- The numbers in the metadata headers, against the way they are printed.
use mathlib.Core.Option
use remote_file_system_in_ru.Base.{
  ℕ, ◌≤◌, ◌≡◌, refl, inl, inr, Option, none, some, arith, leb, if◌then◌else◌, Bool-cases, Result,
  ok, err,
}
use remote_file_system_in_ru.Base.Bytes.{Bytes}
use remote_file_system_in_ru.Text.Radix.{format, u32_max, u64_max, from_str_radix-format}
use remote_file_system_in_ru.Protocol.{file_mode}
use remote_file_system_in_ru.Server.Error.{StorageError, bad_request}
use remote_file_system_in_ru.Server.Http.{Headers}
use remote_file_system_in_ru.Server.Metadata.{
  parse_optional, parse_mode, parse_u64, parse_optional_u64_header, parse_optional_mode_header,
}

pub parse_mode-format :
    (mode : ℕ)
    → mode ≤ u32_max
    → parse_mode (format 8 mode) ≡ (if leb mode 0o7777 then some mode else none)
unfolding parse_mode
parse_mode-format mode h =
    rw (parse_mode, from_str_radix-format 8 u32_max (omega arith) (omega arith) mode h) refl

module _ (H : Headers) (headers : H.HeaderMap) (name : Bytes) (value : H.HeaderValue)
    (there : H.get headers name ≡ some value) where
  read {ℓ} : {A : Type ℓ} → StorageError → Option A → Result StorageError (Option A)
  read error none = err error
  read error (some a) = ok (some a)

  parse_optional-there {ℓ} :
      {A : Type ℓ} (error : StorageError) (parse : Bytes → Option A) (text : Bytes) (o : Option A)
      → H.to_str value ≡ some text
      → parse text ≡ o
      → parse_optional H error parse headers name ≡ read error o
  unfolding parse_optional read Option.bind
  parse_optional-there error parse text none h e = rw (parse_optional, there, h, e) refl
  parse_optional-there error parse text (some a) h e = rw (parse_optional, there, h, e) refl

  -- A u64 that a client prints in decimal into a header is read back.
  pub parse_optional_u64_header-format :
      (n : ℕ)
      → n ≤ u64_max
      → H.to_str value ≡ some (format 10 n)
      → parse_optional_u64_header H headers name ≡ ok (some n)
  unfolding parse_optional_u64_header read
  parse_optional_u64_header-format n h text =
      parse_optional-there _ parse_u64 (format 10 n) (some n) text
        (from_str_radix-format 10 u64_max (omega arith) (omega arith) n h)

  -- A u32 that a client prints in octal into the mode header is read back if it has at most twelve
  -- bits, and is a bad request if it has more.
  pub parse_optional_mode_header-format :
      (mode : ℕ)
      → name ≡ file_mode
      → mode ≤ u32_max
      → H.to_str value ≡ some (format 8 mode)
      → parse_optional_mode_header H headers
        ≡ (if leb mode 0o7777 then ok (some mode) else err (bad_request "Invalid file mode"))
  unfolding parse_optional_mode_header read
  parse_optional_mode_header-format mode same h text = elim (Bool-cases (leb mode 0o7777)) [
    | inl small ↦
        rw (← same, small)
          (parse_optional-there _ parse_mode (format 8 mode) (some mode) text
            (rw (parse_mode-format mode h, small) refl))
    | inr large ↦
        rw (← same, large)
          (parse_optional-there _ parse_mode (format 8 mode) none text
            (rw (parse_mode-format mode h, large) refl))
  ]
