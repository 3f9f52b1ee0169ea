-- ===== src/Text/Radix.antt =====
-- Unsigned numerals: `to_string`, `{:o}`, `{:020}`, `parse` and `from_str_radix`, at a radix of at
-- most ten. The repository uses the radices eight and ten.
use native.Mathlib.Nat.{mod-lt, div-add-mod', div-lt_self}
use remote_file_system_in_ru.Base.{
  ℕ, zero, suc, ◌+◌, ◌-◌, ◌*◌, ◌/◌, ◌%◌, ◌≤◌, ◌<◌, ◌≡◌, refl, ◌∙◌, false, ◌&&◌, Option, none, some,
  [], ◌∷◌, ◌++◌, arith, ltb, leb, ◌==◌, length, replicate, if◌then◌else◌, Bool-cases, inl, inr,
}
use remote_file_system_in_ru.Base.Bytes.{Bytes}

-- The digits of a number before those of `rest`. Each round of fuel writes one digit.
unfoldable pub digits_before : ℕ → ℕ → ℕ → Bytes → Bytes
digits_before radix zero n rest = rest
digits_before radix (suc fuel) n rest =
    let more = digits_before radix fuel (n / radix) ((48 + n % radix) ∷ rest) in
    if ltb n radix then (48 + n) ∷ rest else more

-- `to_string()` at radix 10, `format!("{:o}")` at radix 8.
unfoldable pub format : ℕ → ℕ → Bytes
unfolding digits_before
format radix n = digits_before radix (suc n) n []

-- `format!("{:0width$}")`.
unfoldable pub format_padded : ℕ → ℕ → ℕ → Bytes
unfolding format
format_padded radix width n =
    let digits = format radix n in replicate (width - length digits) b'0' ++ digits

-- The digits of `from_str_radix`, with its checks for a foreign digit and for an overflow.
unfoldable pub parse_digits : ℕ → ℕ → ℕ → Bytes → Option ℕ
parse_digits radix max_value n [] = some n
parse_digits radix max_value n (c ∷ rest) =
    let value = n * radix + (c - 48) in
    let more = parse_digits radix max_value value rest in
    if leb 48 c && ltb c (48 + radix) && leb value max_value then more else none

-- `from_str_radix` of an unsigned type: one leading `+` is allowed, no digits are an error.
unfoldable pub from_str_radix : ℕ → ℕ → Bytes → Option ℕ
unfolding parse_digits
from_str_radix radix max_value [] = none
from_str_radix radix max_value (c ∷ []) =
    if c == b'+' then none else parse_digits radix max_value 0 (c ∷ [])
from_str_radix radix max_value (c ∷ d ∷ rest) =
    parse_digits radix max_value 0 (if c == b'+' then d ∷ rest else c ∷ d ∷ rest)

abbrev pub u32_max : ℕ
u32_max = 4294967295

abbrev pub u64_max : ℕ
u64_max = 18446744073709551615

-- A parsed number is within the type.
pub parse_digits-le :
    (radix max_value n : ℕ) (text : Bytes) (k : ℕ)
    → n ≤ max_value
    → parse_digits radix max_value n text ≡ some k
    → k ≤ max_value
unfolding parse_digits
parse_digits-le radix max_value n [] k h e = ground arith
parse_digits-le radix max_value n (c ∷ rest) k h e =
    ground (arith, parse_digits-le radix max_value (n * radix + (c - 48)) rest k)

pub from_str_radix-le :
    (radix max_value : ℕ) (text : Bytes) (k : ℕ)
    → from_str_radix radix max_value text ≡ some k
    → k ≤ max_value
unfolding from_str_radix
from_str_radix-le radix max_value [] k e = cc
from_str_radix-le radix max_value (c ∷ []) k e =
    ground (arith, parse_digits-le radix max_value 0 (c ∷ []) k)
from_str_radix-le radix max_value (c ∷ d ∷ rest) k e =
    parse_digits-le radix max_value 0 (if c == b'+' then d ∷ rest else c ∷ d ∷ rest) k (omega arith)
      e

-- The text begins with a character that is no sign.
abbrev StartsDigit : Bytes → Type 0
StartsDigit [] = ⊥
StartsDigit (c ∷ rest) = 48 ≤ c

StartsDigit-digits_before :
    (radix fuel n : ℕ) (rest : Bytes)
    → StartsDigit rest
    → StartsDigit (digits_before radix fuel n rest)
unfolding digits_before
StartsDigit-digits_before radix zero n rest h = h
StartsDigit-digits_before radix (suc fuel) n rest h = elim (Bool-cases (ltb n radix)) [
  | inl last ↦ rw last (omega arith)
  | inr more ↦
      rw more
        (StartsDigit-digits_before radix fuel (n / radix) ((48 + n % radix) ∷ rest) (omega arith))
]

StartsDigit-format : (radix n : ℕ) → StartsDigit (format radix n)
unfolding format
StartsDigit-format radix n = elim (Bool-cases (ltb n radix)) [
  | inl last ↦ rw last (omega arith)
  | inr more ↦
      rw more (StartsDigit-digits_before radix n (n / radix) ((48 + n % radix) ∷ []) (omega arith))
]

StartsDigit-zeros : (k : ℕ) (text : Bytes) → StartsDigit text → StartsDigit (replicate k 48 ++ text)
StartsDigit-zeros zero text h = h
StartsDigit-zeros (suc k) text h = omega arith

from_str_radix_unsigned :
    (radix max_value : ℕ) (text : Bytes)
    → StartsDigit text
    → from_str_radix radix max_value text ≡ parse_digits radix max_value 0 text
unfolding from_str_radix
from_str_radix_unsigned radix max_value [] h = elim h [ ]
from_str_radix_unsigned radix max_value (c ∷ []) h =
    let unsigned : (c == 43) ≡ false = ground arith in rw unsigned
from_str_radix_unsigned radix max_value (c ∷ d ∷ rest) h =
    let unsigned : (c == 43) ≡ false = ground arith in rw unsigned

module _ (radix max_value : ℕ) (low : 2 ≤ radix) (high : radix ≤ 10) where
  parse_digits-digits_before :
      (fuel n : ℕ) (rest : Bytes)
      → n < fuel
      → n ≤ max_value
      → parse_digits radix max_value 0 (digits_before radix fuel n rest)
        ≡ parse_digits radix max_value n rest
  unfolding digits_before parse_digits
  parse_digits-digits_before zero n rest h fits = elim h [ ]
  parse_digits-digits_before (suc fuel) n rest h fits = elim (Bool-cases (ltb n radix)) [
    | inl last ↦ rw last (ground arith)
    | inr more ↦
        let large : radix ≤ n = ground arith in
        let smaller : n / radix < n = div-lt_self (omega arith) (omega arith) in
        let last : n % radix < radix = mod-lt n (omega arith) in
        let whole : n / radix * radix + n % radix ≡ n = div-add-mod' n radix in
        rw
          (
            more,
            parse_digits-digits_before fuel (n / radix) ((48 + n % radix) ∷ rest) (omega arith)
                (omega arith),
          )
          (ground arith)
  ]

  parse_digits-zeros :
      (k : ℕ) (text : Bytes)
      → parse_digits radix max_value 0 (replicate k 48 ++ text)
        ≡ parse_digits radix max_value 0 text
  unfolding parse_digits
  parse_digits-zeros zero text = refl
  parse_digits-zeros (suc k) text = ground (arith, parse_digits-zeros k text)

  parse_digits-format :
      (n : ℕ) → n ≤ max_value → parse_digits radix max_value 0 (format radix n) ≡ some n
  unfolding format
  parse_digits-format n fits =
      parse_digits-digits_before (suc n) n [] (omega arith) fits ∙ unfold parse_digits in refl

  -- A number that fits the type is read back from its numeral.
  pub from_str_radix-format :
      (n : ℕ) → n ≤ max_value → from_str_radix radix max_value (format radix n) ≡ some n
  from_str_radix-format n fits =
      from_str_radix_unsigned radix max_value (format radix n) (StartsDigit-format radix n)
      ∙ parse_digits-format n fits

  -- Padding with zeros changes nothing for the reader.
  pub from_str_radix-format_padded :
      (width n : ℕ)
      → n ≤ max_value
      → from_str_radix radix max_value (format_padded radix width n) ≡ some n
  unfolding format_padded
  from_str_radix-format_padded width n fits =
      let zeros = width - length (format radix n) in
      from_str_radix_unsigned radix max_value _
        (StartsDigit-zeros zeros (format radix n) (StartsDigit-format radix n))
      ∙ parse_digits-zeros zeros (format radix n)
      ∙ parse_digits-format n fits
