-- ===== src/Client/Journal/Names.antt =====
-- The names of a journal's files, and the generations read from names.
pub mod RoundTrip
use mathlib.Core.Option
use mathlib.Core.List.{reverse}
use remote_file_system_in_ru.Base.{ℕ, Option, none, some, [], ◌∷◌, ◌++◌}
use remote_file_system_in_ru.Base.Bytes.{Bytes, codes, strip_prefix}
use remote_file_system_in_ru.FileSystem.{FilePath}
use remote_file_system_in_ru.Text.Radix.{format, format_padded, from_str_radix, u64_max}

abbrev pub manifest_file_name : Bytes
manifest_file_name = codes "manifest.json"

-- `str::strip_suffix`.
unfoldable pub strip_suffix : Bytes → Bytes → Option Bytes
unfolding strip_prefix
strip_suffix suffix s = Option.map reverse (strip_prefix (reverse suffix) (reverse s))

unfoldable pub data_name : ℕ → Bytes
unfolding format_padded
data_name generation = codes "data-" ++ (format_padded 10 20 generation ++ codes ".bin")

unfoldable pub commit_name : ℕ → Bytes
unfolding format_padded
commit_name generation = codes "commit-" ++ (format_padded 10 20 generation ++ codes ".ok")

-- `directory.join(name)`.
abbrev pub path_join : FilePath → Bytes → FilePath
path_join directory name = directory ++ name ∷ []

unfoldable pub data_path : FilePath → ℕ → FilePath
unfolding data_name
data_path directory generation = path_join directory (data_name generation)

unfoldable pub commit_path : FilePath → ℕ → FilePath
unfolding commit_name
commit_path directory generation = path_join directory (commit_name generation)

-- `strip_prefix(…)?.strip_suffix(…)?.parse().ok()`.
unfoldable pub parse_between : Bytes → Bytes → Bytes → Option ℕ
unfolding strip_suffix strip_prefix from_str_radix
parse_between prefix suffix name =
    Option.bind (Option.bind (strip_prefix prefix name) (strip_suffix suffix))
      (from_str_radix 10 u64_max)

unfoldable pub parse_commit_generation : Bytes → Option ℕ
unfolding parse_between
parse_commit_generation = parse_between (codes "commit-") (codes ".ok")

unfoldable pub parse_data_generation : Bytes → Option ℕ
unfolding parse_between
parse_data_generation = parse_between (codes "data-") (codes ".bin")

-- `format!("{}-{}-{}", process::id(), unix_nanos_now(), ENTRY_COUNTER.fetch_add(1))`, and the
-- directory in which the entry is built.
unfoldable pub entry_id : ℕ → ℕ → ℕ → Bytes
unfolding format
entry_id process_id nanos counter =
    format 10 process_id ++ codes "-" ++ format 10 nanos ++ codes "-" ++ format 10 counter

abbrev pub staging_prefix : Bytes
staging_prefix = codes ".creating-"
