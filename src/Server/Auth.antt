-- ===== src/Server/Auth.antt =====
-- `server/src/auth.rs`: the bearer token of every request.
mod Bits
pub mod Laws
use Prim.Native.Nat.{bit_or, bit_xor}
use mathlib.Core.Option
use remote_file_system_in_ru.Base.{
  ℕ, zero, suc, ◌≡◌, Bool, false, true, Option, none, some, ◌==◌, length, get_elem?, max,
  if◌then◌else◌, is_some_and,
}
use remote_file_system_in_ru.Base.Bytes.{Bytes, codes, strip_prefix}
use remote_file_system_in_ru.Server.Http.{Headers}

-- `bytes.get(index).copied().unwrap_or(0)`.
abbrev pub byte_at : Bytes → ℕ → ℕ
byte_at bytes index = Option.get_or (get_elem? bytes index) 0

-- The loop over `index`, with the rounds that are left.
unfoldable pub compare_from : Bytes → Bytes → ℕ → ℕ → ℕ → ℕ
compare_from provided expected zero index difference = difference
compare_from provided expected (suc rounds) index difference =
    compare_from provided expected rounds (suc index)
      (bit_or difference (bit_xor (byte_at provided index) (byte_at expected index)))

unfoldable pub bearer_token_matches : Bytes → Bytes → Bool
unfolding compare_from strip_prefix
bearer_token_matches header_value expected = elim (strip_prefix (codes "Bearer ") header_value) [
  | none ↦ false
  | some provided ↦
      let difference = bit_xor (length provided) (length expected) in
      let comparison_len = max (length provided) (length expected) in
      compare_from provided expected comparison_len 0 difference == 0
]

-- The middleware answers by `next`, or refuses the request with a 401 and leaves `next` uncalled.
pub data Answer {ℓ} (Response : Type ℓ) : Type ℓ where
  answered : Response → Answer Response
  unauthorized : Answer Response

abbrev pub is_authorized : (H : Headers) → Bytes → H.HeaderMap → Bool
is_authorized H expected headers =
    is_some_and (Option.bind (H.get headers (codes "authorization")) H.to_str)
      (λ value. bearer_token_matches value expected)

unfoldable pub require_authentication {ℓ κ} :
    (H : Headers) {S : Type ℓ} {Response : Type κ}
    → Option Bytes
    → H.HeaderMap
    → (S → Response × S)
    → S
    → Answer Response × S
require_authentication H none headers next s =
    let (response, s') = next s in (answered response, s')
require_authentication H (some expected) headers next s =
    if is_authorized H expected headers
    then (let (response, s') = next s in (answered response, s'))
    else (unauthorized, s)
