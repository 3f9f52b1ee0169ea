-- ===== src/Client/Api/Encoding.antt =====
-- The path in a URL against `percent_decode`, the way a server reads one: what the components of a
-- path are after encoding and decoding.
use remote_file_system_in_ru.Base.{
  ℕ, ◌+◌, ◌-◌, ◌*◌, ◌/◌, ◌%◌, ◌<◌, ◌≡◌, ◌≢◌, refl, ap, ◌∙◌, Bool, true, ◌||◌, List, [], ◌∷◌, ◌++◌,
  arith, ltb, ◌==◌, if◌then◌else◌, All, inl, inr, Bool-cases,
}
use remote_file_system_in_ru.Base.Bytes.{Bytes}
use remote_file_system_in_ru.Text.Slashes.{
  slash, trim_start, trim_cons, trim_end, cons_head, trim_matches, split, join,
}
use remote_file_system_in_ru.Text.Slashes.Laws.{split-join}
use remote_file_system_in_ru.Client.Api.Url.{
  is_unreserved, hex_digit, encode_byte, encode_component, encode_components, encode_api_path,
}

abbrev pub hex_value : ℕ → ℕ
hex_value c = if ltb c 58 then c - 48 else c - 55

-- The percent-decoding of RFC 3986, for digits in upper case.
unfoldable pub decode : Bytes → Bytes
decode [] = []
decode (c ∷ []) = c ∷ []
decode (c ∷ d ∷ []) = c ∷ d ∷ []
decode (c ∷ d ∷ e ∷ s) =
    let plain = decode (d ∷ e ∷ s) in
    let coded = decode s in
    if c == b'%' then (hex_value d * 16 + hex_value e) ∷ coded else c ∷ plain

unfoldable pub decode_all : List Bytes → List Bytes
unfolding decode
decode_all [] = []
decode_all (piece ∷ pieces) = decode piece ∷ decode_all pieces

abbrev pub IsText : Bytes → Type 0
IsText s = All (λ c. c < 256) s

hex_value-hex_digit : (n : ℕ) → n < 16 → hex_value (hex_digit n) ≡ n
unfolding hex_digit
hex_value-hex_digit n h = ground arith

-- A byte that is not the start of a code stands for itself.
decode-plain : (c : ℕ) (s : Bytes) → c ≢ b'%' → decode (c ∷ s) ≡ c ∷ decode s
unfolding decode
decode-plain c [] h = refl
decode-plain c (d ∷ []) h = refl
decode-plain c (d ∷ e ∷ s) h = ground arith

unreserved-ne-percent : (c : ℕ) → is_unreserved c ≡ true → c ≢ b'%'
unfolding is_unreserved
unreserved-ne-percent c h e = absurd (ground arith)

decode-encode_component : (s : Bytes) → IsText s → decode (encode_component s) ≡ s
unfolding encode_component encode_byte decode
decode-encode_component [] h = refl
decode-encode_component (c ∷ s) h = elim (Bool-cases (is_unreserved c)) [
  | inl plain ↦ rw plain (
      decode-plain c (encode_component s) (unreserved-ne-percent c plain)
      ∙ ap (λ rest. c ∷ rest) (decode-encode_component s h.1))
  | inr coded ↦
      rw
        (
          coded,
          hex_value-hex_digit (c / 16) (omega (arith, h.0)),
          hex_value-hex_digit (c % 16) (omega arith),
          decode-encode_component s h.1,
        )
        (ap (λ byte. byte ∷ s) (omega arith))
]

-- A byte that stands in the path of a URL without a meaning of its own.
abbrev pub is_url_byte : ℕ → Bool
is_url_byte c = is_unreserved c || c == b'%' || c == slash

-- What holds of each byte of a text holds of each byte of its pieces.
module _ {κ} (P : ℕ → Type κ) where
  trim_start-All : (s : Bytes) → All P s → All P (trim_start s)
  unfolding trim_start
  trim_start-All [] h = tt
  trim_start-All (c ∷ s) h = elim (Bool-cases (c == slash)) [
    | inl bar ↦ rw bar (trim_start-All s h.1)
    | inr other ↦ rw other h
  ]

  trim_cons-All : (c : ℕ) (s : Bytes) → P c → All P s → All P (trim_cons c s)
  unfolding trim_cons
  trim_cons-All c [] p h = elim (Bool-cases (c == slash)) [
    | inl bar ↦ rw bar tt
    | inr other ↦ rw other (p, tt)
  ]
  trim_cons-All c (d ∷ s) p h = (p, h)

  trim_end-All : (s : Bytes) → All P s → All P (trim_end s)
  unfolding trim_end
  trim_end-All [] h = tt
  trim_end-All (c ∷ s) h = trim_cons-All c (trim_end s) h.0 (trim_end-All s h.1)

  cons_head-All :
      (c : ℕ) (pieces : List Bytes) → P c → All (All P) pieces → All (All P) (cons_head c pieces)
  unfolding cons_head
  cons_head-All c [] p h = ((p, tt), tt)
  cons_head-All c (piece ∷ pieces) p h = ((p, h.0), h.1)

  split-All : (s : Bytes) → All P s → All (All P) (split s)
  unfolding split
  split-All [] h = (tt, tt)
  split-All (c ∷ s) h = elim (Bool-cases (c == slash)) [
    | inl bar ↦ rw bar (tt, split-All s h.1)
    | inr other ↦ rw other (cons_head-All c (split s) h.0 (split-All s h.1))
  ]

  append-All : (s t : Bytes) → All P s → All P t → All P (s ++ t)
  append-All [] t hs ht = ht
  append-All (c ∷ s) t hs ht = (hs.0, append-All s t hs.1 ht)

  join-All : (pieces : List Bytes) → P slash → All (All P) pieces → All P (join pieces)
  unfolding join
  join-All [] p h = tt
  join-All (piece ∷ []) p h = h.0
  join-All (piece ∷ next ∷ pieces) p h =
      append-All piece (slash ∷ join (next ∷ pieces)) h.0 (p, join-All (next ∷ pieces) p h.1)

hex_digit-range : (n : ℕ) → n < 16 → (is_unreserved (hex_digit n) ≡ true) × (hex_digit n ≢ slash)
unfolding hex_digit is_unreserved
hex_digit-range n h = (ground arith, λ e. absurd (ground arith))

unreserved-ne-slash : (c : ℕ) → is_unreserved c ≡ true → c ≢ slash
unfolding is_unreserved
unreserved-ne-slash c h e = absurd (ground arith)

module _ (c : ℕ) (h : c < 256) where
  encode_byte-All {κ} :
      (P : ℕ → Type κ) → ((d : ℕ) → is_unreserved d ≡ true → P d) → P b'%' → All P (encode_byte c)
  unfolding encode_byte
  encode_byte-All P plain percent = elim (Bool-cases (is_unreserved c)) [
    | inl yes_plain ↦ rw yes_plain (plain c yes_plain, tt)
    | inr coded ↦ rw coded (
      percent,
      (
        plain _ (hex_digit-range (c / 16) (omega (arith, h))).0,
        (plain _ (hex_digit-range (c % 16) (omega arith)).0, tt),
      ),
    )
  ]

encode_component-All {κ} :
    (P : ℕ → Type κ)
    → ((d : ℕ) → is_unreserved d ≡ true → P d)
    → P b'%'
    → (s : Bytes) → IsText s
    → All P (encode_component s)
unfolding encode_component
encode_component-All P plain percent [] h = tt
encode_component-All P plain percent (c ∷ s) h =
    append-All P (encode_byte c) (encode_component s) (encode_byte-All c h.0 P plain percent)
      (encode_component-All P plain percent s h.1)

encode_components-All {κ} :
    (P : ℕ → Type κ)
    → ((d : ℕ) → is_unreserved d ≡ true → P d)
    → P b'%'
    → (pieces : List Bytes) → All IsText pieces
    → All (All P) (encode_components pieces)
unfolding encode_components
encode_components-All P plain percent [] h = tt
encode_components-All P plain percent (piece ∷ pieces) h = (
  encode_component-All P plain percent piece h.0,
  encode_components-All P plain percent pieces h.1,
)

decode_all-encode_components :
    (pieces : List Bytes) → All IsText pieces → decode_all (encode_components pieces) ≡ pieces
unfolding decode_all encode_components
decode_all-encode_components [] h = refl
decode_all-encode_components (piece ∷ pieces) h =
    rw (decode-encode_component piece h.0, decode_all-encode_components pieces h.1)

split-nonempty : (s : Bytes) → (piece : Bytes) × (pieces : List Bytes) × (split s ≡ piece ∷ pieces)
unfolding split cons_head
split-nonempty [] = ([], [], refl)
split-nonempty (c ∷ s) = elim (Bool-cases (c == slash)) [
  | inl bar ↦ ([], split s, rw bar)
  | inr other ↦
      (let (piece, pieces, e) = split-nonempty s in (c ∷ piece, pieces, rw (other, e, cons_head)))
]

split-join-encode :
    (pieces : List Bytes) (piece : Bytes)
    → All IsText (piece ∷ pieces)
    → split (join (encode_components (piece ∷ pieces))) ≡ encode_components (piece ∷ pieces)
unfolding encode_components
split-join-encode pieces piece h = split-join (encode_component piece) (encode_components pieces) (
    encode_components-All (λ c. c ≢ slash) unreserved-ne-slash (λ e. absurd (omega arith))
      (piece ∷ pieces) h)

-- For a path of bytes, the URL's path is written in unreserved characters, % and / alone, and its
-- pieces decode to the pieces of the path, which has lost its outer slashes.
pub decode_all-encode_api_path :
    (path : Bytes)
    → IsText path
    → All (λ c. is_url_byte c ≡ true) (encode_api_path path)
      × (decode_all (split (encode_api_path path)) ≡ split (trim_matches path))
unfolding encode_api_path trim_matches
decode_all-encode_api_path path h =
    let texts =
      split-All (λ c. c < 256) (trim_matches path)
        (trim_start-All (λ c. c < 256) _ (trim_end-All (λ c. c < 256) path h)) in
    let (piece, pieces, e) = split-nonempty (trim_matches path) in
    (
      join-All (λ c. is_url_byte c ≡ true) _ (ground arith)
          (encode_components-All (λ c. is_url_byte c ≡ true) (λ d p. ground arith) (ground arith) _
            texts),
      rw e (
          ap decode_all (split-join-encode pieces piece (rw e at texts))
          ∙ decode_all-encode_components (piece ∷ pieces) (rw e at texts)),
    )
