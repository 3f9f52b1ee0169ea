-- ===== src/Server/Auth/Laws.antt =====
-- The comparison in constant time accepts exactly the expected token.
use Prim.Native.Nat.{bit_or, bit_xor}
use mathlib.Core.Option
use remote_file_system_in_ru.Base.{
  ℕ, zero, suc, ◌≡◌, ◌↔◌, refl, ap, sym, ◌∙◌, is_some_and, Bool, true, Option, none, some, [], ◌∷◌,
  ◌++◌, arith, length, max, inl, inr, Bool-cases, Option-cases,
}
use remote_file_system_in_ru.Base.Bytes.{
  Bytes, codes, strip_prefix, strip_prefix-append, append_of_strip_prefix,
}
use remote_file_system_in_ru.Server.Http.{Headers}
use remote_file_system_in_ru.Server.Auth.{
  byte_at, compare_from, bearer_token_matches, answered, unauthorized, is_authorized,
  require_authentication,
}
use remote_file_system_in_ru.Server.Auth.Bits.{bit_xor-eq-zero, bit_or-eq-zero}

compare_from-cons :
    (a b : ℕ) (p e : Bytes) (rounds index difference : ℕ)
    → compare_from (a ∷ p) (b ∷ e) rounds (suc index) difference
      ≡ compare_from p e rounds index difference
unfolding compare_from
compare_from-cons a b p e zero index difference = refl
compare_from-cons a b p e (suc rounds) index difference =
    compare_from-cons a b p e rounds (suc index) _

-- A difference, once found, stays.
compare_from-eq-zero :
    (p e : Bytes) (rounds index difference : ℕ)
    → compare_from p e rounds index difference ≡ 0
    → difference ≡ 0
unfolding compare_from
compare_from-eq-zero p e zero index difference h = h
compare_from-eq-zero p e (suc rounds) index difference h =
    ((bit_or-eq-zero difference (bit_xor (byte_at p index) (byte_at e index))).0
      (compare_from-eq-zero p e rounds (suc index) _ h)).0

compare_from_iff :
    (p e : Bytes) (difference : ℕ)
    → length p ≡ length e
    → (compare_from p e (length p) 0 difference ≡ 0) ↔ ((difference ≡ 0) × (p ≡ e))
unfolding compare_from
compare_from_iff [] [] difference same = (λ h. (h, refl), λ h. h.0)
compare_from_iff [] (b ∷ e) difference same = absurd (omega arith)
compare_from_iff (a ∷ p) [] difference same = absurd (omega arith)
compare_from_iff (a ∷ p) (b ∷ e) difference same = ground (
  arith,
  compare_from-cons a b p e (length p) 0 (bit_or difference (bit_xor a b)),
  compare_from_iff p e (bit_or difference (bit_xor a b)) (omega arith),
  bit_or-eq-zero difference (bit_xor a b),
  bit_xor-eq-zero a b,
)

tokens_iff :
    (p e : Bytes)
    → (compare_from p e (max (length p) (length e)) 0 (bit_xor (length p) (length e)) ≡ 0) ↔ (p ≡ e)
tokens_iff p e = (
  λ h.
      let same = (bit_xor-eq-zero (length p) (length e)).0 (compare_from-eq-zero p e _ 0 _ h) in
      let rounds : max (length p) (length e) ≡ length p = omega arith in
      ((compare_from_iff p e _ same).0 (rw rounds at h)).1,
  λ h.
      let same = ap length h in
      let rounds : max (length p) (length e) ≡ length p = omega arith in
      rw rounds
        ((compare_from_iff p e _ same).1 ((bit_xor-eq-zero (length p) (length e)).1 same, h)),
)

-- The comparison in constant time accepts a header value exactly when it is "Bearer " followed by
-- the expected token.
pub bearer_token_matches_iff :
    (header_value expected : Bytes)
    → (bearer_token_matches header_value expected ≡ true)
      ↔ (header_value ≡ codes "Bearer " ++ expected)
unfolding bearer_token_matches
bearer_token_matches_iff header_value expected =
    elim (Option-cases (strip_prefix (codes "Bearer ") header_value)) [
      | inl none_left ↦
          rw (none_left, bearer_token_matches)
            (
              λ h. cc,
              λ h. absurd (
                  let e = strip_prefix-append (codes "Bearer ") expected in
                  cc (ap (strip_prefix (codes "Bearer ")) h)),
            )
      | inr (provided, cut) ↦
          let whole = append_of_strip_prefix (codes "Bearer ") header_value provided cut in
          rw (cut, bearer_token_matches)
            (
              λ h. ground (arith, tokens_iff provided expected),
              λ h.
                  let q : some provided ≡ some expected =
                    sym cut
                    ∙ ap (strip_prefix (codes "Bearer ")) h
                    ∙ strip_prefix-append (codes "Bearer ") expected in
                  ground (arith, tokens_iff provided expected),
            )
    ]

-- The request carries the scheme and the expected token, as text, in its authorization header.
abbrev pub HasToken : (H : Headers) → Bytes → H.HeaderMap → Type 0
HasToken H expected headers =
    (value : H.HeaderValue) × (H.get headers (codes "authorization") ≡ some value)
    × (H.to_str value ≡ some (codes "Bearer " ++ expected))

read_iff {ℓ} :
    {A : Type ℓ} (t : Bytes) (p : Bytes → Bool)
    → ((x : Bytes) → (p x ≡ true) ↔ (x ≡ t))
    → (f : A → Option Bytes) (o : Option A)
    → (is_some_and (Option.bind o f) p ≡ true) ↔ ((v : A) × (o ≡ some v) × (f v ≡ some t))
unfolding Option.bind
read_iff t p exact f none = (λ h. absurd (ground arith), λ (v, q, r). ground arith)
read_iff t p exact f (some v) = elim (Option-cases (f v)) [
  | inl binary ↦ (λ h. absurd (ground arith), λ (w, q, r). ground arith)
  | inr (x, text) ↦ (λ h. (v, refl, ground (arith, exact x)), λ (w, q, r). ground (arith, exact x))
]

is_authorized_iff :
    (H : Headers) (expected : Bytes) (headers : H.HeaderMap)
    → (is_authorized H expected headers ≡ true) ↔ HasToken H expected headers
is_authorized_iff H expected headers =
    read_iff expected_value (λ value. bearer_token_matches value expected)
      (λ value. bearer_token_matches_iff value expected) H.to_str
      (H.get headers (codes "authorization"))
  where
    expected_value : Bytes
    expected_value = codes "Bearer " ++ expected

module _ {ℓ κ} (H : Headers) {S : Type ℓ} {Response : Type κ} where
  -- With a token configured, a request whose header is the token after "Bearer " is answered by
  -- the handler, and any other is refused without running it.
  pub require_authentication-exact :
      (expected : Bytes) (headers : H.HeaderMap) (next : S → Response × S) (s : S)
      → let run = require_authentication H (some expected) headers next s in
        (HasToken H expected headers → run ≡ (answered (next s).0, (next s).1))
        × (¬ HasToken H expected headers → run ≡ (unauthorized, s))
  unfolding require_authentication
  require_authentication-exact expected headers next s = (
    λ h. rw ((is_authorized_iff H expected headers).1 h),
    λ h. elim (Bool-cases (is_authorized H expected headers)) [
      | inl yes_token ↦ absurd (h ((is_authorized_iff H expected headers).0 yes_token))
      | inr no_token ↦ rw no_token
    ],
  )
