-- ===== src/Client/Journal/Names/RoundTrip.antt =====
-- The names of a journal's files are read back to the generations they were made from.
use mathlib.Core.Option
use mathlib.Core.List.{reverse, reverse-append, reverse-reverse}
use remote_file_system_in_ru.Base.{ℕ, ◌≤◌, ◌≡◌, refl, none, some, ◌++◌, arith}
use remote_file_system_in_ru.Base.Bytes.{Bytes, codes, strip_prefix, strip_prefix-append}
use remote_file_system_in_ru.Text.Radix.{format_padded, u64_max, from_str_radix-format_padded}
use remote_file_system_in_ru.Client.Journal.Names.{
  strip_suffix, data_name, commit_name, parse_between, parse_commit_generation,
  parse_data_generation,
}

strip_suffix-append : (s suffix : Bytes) → strip_suffix suffix (s ++ suffix) ≡ some s
unfolding strip_suffix
strip_suffix-append s suffix =
    rw
      (reverse-append s suffix, strip_prefix-append (reverse suffix) (reverse s), reverse-reverse s)

parse_between-append :
    (prefix suffix : Bytes) (generation : ℕ)
    → generation ≤ u64_max
    → parse_between prefix suffix (prefix ++ (format_padded 10 20 generation ++ suffix))
      ≡ some generation
unfolding parse_between Option.bind
parse_between-append prefix suffix generation h =
    rw
      (
        strip_prefix-append prefix (format_padded 10 20 generation ++ suffix),
        strip_suffix-append (format_padded 10 20 generation) suffix,
      )
      (from_str_radix-format_padded 10 u64_max (omega arith) (omega arith) 20 generation h)

-- For a generation of 64 bits, the name of its marker is read back as that generation and is not
-- taken for the name of data, and the name of its data is read back as that generation and is not
-- taken for the name of a marker.
pub parse-names :
    (generation : ℕ)
    → generation ≤ u64_max
    → (parse_commit_generation (commit_name generation) ≡ some generation)
      × (parse_data_generation (commit_name generation) ≡ none)
      × (parse_data_generation (data_name generation) ≡ some generation)
      × (parse_commit_generation (data_name generation) ≡ none)
unfolding parse_commit_generation parse_data_generation commit_name data_name parse_between
    strip_prefix Option.bind
parse-names generation h = (
  parse_between-append (codes "commit-") (codes ".ok") generation h,
  refl,
  parse_between-append (codes "data-") (codes ".bin") generation h,
  refl,
)
