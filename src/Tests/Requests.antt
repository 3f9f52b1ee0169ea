-- ===== src/Tests/Requests.antt =====
-- The theorems on paths, authentication and the handlers at concrete inputs.
use remote_file_system_in_ru.Base.{
  ℕ, ◌+◌, ◌≡◌, ◌≢◌, refl, ◌↔◌, Bool, true, false, ◌&&◌, some, [], ◌∷◌, ◌++◌, ok, All, arith,
}
use remote_file_system_in_ru.Base.Bytes.{Bytes, codes, bytes_eq, bytes_eq_instance}
use remote_file_system_in_ru.Base.Map
use remote_file_system_in_ru.Base.Map.{Map}
use remote_file_system_in_ru.Text.Radix.{format}
use remote_file_system_in_ru.Protocol.{file_mode, file_offset}
use remote_file_system_in_ru.Server.Metadata.{parse_optional_u64_header, parse_optional_mode_header}
use remote_file_system_in_ru.Server.Metadata.Numbers.{
  parse_optional_u64_header-format, parse_optional_mode_header-format,
}
use remote_file_system_in_ru.FileSystem.{FilePath}
use remote_file_system_in_ru.FileSystem.Laws.{directory}
use remote_file_system_in_ru.Text.Slashes.{IsNormal, join, trim_matches, components}
use remote_file_system_in_ru.Server.Http.{plain_headers}
use remote_file_system_in_ru.Server.Auth.{
  bearer_token_matches, require_authentication, answered, unauthorized,
}
use remote_file_system_in_ru.Server.Auth.Laws.{
  HasToken, bearer_token_matches_iff, require_authentication-exact,
}
use remote_file_system_in_ru.Server.Handlers.{path_eq}
use remote_file_system_in_ru.Server.PathSecurity.{
  sanitize_api_path, reject_link_components, resolve_path, resolve_non_root_path,
}
use remote_file_system_in_ru.Server.PathSecurity.Laws.{
  sanitize_api_path-IsNormal, sanitize_api_path-join,
}
use remote_file_system_in_ru.Server.PathSecurity.Containment.{
  NothingBelow, IsContained, resolve_path-IsContained, resolve_non_root_path-IsContained,
}
use remote_file_system_in_ru.Server.Storage.{World}
use remote_file_system_in_ru.Tests.Memory.{path_eq_instance, Disk, memory, stat}
use remote_file_system_in_ru.Tests.Examples.{srv, app}

-- A disk with no more than the root and the shared directory.
abbrev bare : Disk
bare = record { entries = ([], directory) ∷ (srv, directory) ∷ []; contents = λ i. [] }

unfoldable bare_world : World memory
unfolding memory
bare_world = record { disk = bare; transaction_counter = 0 }

second : (b : Bool) → (b && false) ≡ false
second true = refl
second false = refl

bare-NothingBelow : NothingBelow memory bare_world.disk
unfolding memory bare_world path_eq_instance bytes_eq stat path_eq Map.lookup
bare-NothingBelow [] part h = absurd (cc h)
bare-NothingBelow (x ∷ []) part h = rw (second (bytes_eq (codes "srv") x)) refl
bare-NothingBelow (x ∷ y ∷ p) part h = rw (second (bytes_eq (codes "srv") x)) refl

resolved :
    resolve_non_root_path memory app.root_dir (codes "a/b") bare_world.disk
    ≡ ok (codes "srv" ∷ codes "a" ∷ codes "b" ∷ [])
unfolding memory bare_world path_eq_instance bytes_eq resolve_non_root_path sanitize_api_path
    trim_matches components reject_link_components
resolved = refl

resolve_path_resolved : resolve_path memory app.root_dir (codes "/") bare_world.disk ≡ ok srv
unfolding memory bare_world path_eq_instance bytes_eq resolve_path sanitize_api_path trim_matches
    components reject_link_components
resolve_path_resolved = refl

resolve_path-IsContained_example :
    (rel : FilePath) × (srv ≡ app.root_dir ++ rel)
    × IsContained memory bare_world.disk app.root_dir rel
resolve_path-IsContained_example =
    resolve_path-IsContained memory bare_world.disk bare-NothingBelow app.root_dir (codes "/") srv
      resolve_path_resolved

resolve_non_root_path-IsContained_example :
    (rel : FilePath) × ((codes "srv" ∷ codes "a" ∷ codes "b" ∷ []) ≡ app.root_dir ++ rel)
    × (rel ≢ [])
    × IsContained memory bare_world.disk app.root_dir rel
resolve_non_root_path-IsContained_example =
    resolve_non_root_path-IsContained memory bare_world.disk bare-NothingBelow app.root_dir
      (codes "a/b") _ resolved

sanitized : sanitize_api_path (codes "/a/./b/") ≡ ok (codes "a" ∷ codes "b" ∷ [])
unfolding bytes_eq sanitize_api_path trim_matches components
sanitized = refl

sanitize_api_path-IsNormal_example : All IsNormal (codes "a" ∷ codes "b" ∷ [])
sanitize_api_path-IsNormal_example = sanitize_api_path-IsNormal (codes "/a/./b/") _ sanitized

names : All IsNormal (codes "a" ∷ codes "b" ∷ [])
names = (
  record {
    not_empty = λ e. cc e;
    not_dot = λ e. cc e;
    not_dot_dot = λ e. cc e;
    no_slash = ground arith;
  },
  (
    record {
      not_empty = λ e. cc e;
      not_dot = λ e. cc e;
      not_dot_dot = λ e. cc e;
      no_slash = ground arith;
    },
    tt,
  ),
)

sanitize_api_path-join_example :
    sanitize_api_path (join (codes "a" ∷ codes "b" ∷ [])) ≡ ok (codes "a" ∷ codes "b" ∷ [])
sanitize_api_path-join_example = sanitize_api_path-join (codes "a") (codes "b" ∷ []) names

bearer_token_matches_iff_example :
    (bearer_token_matches (codes "Bearer secret") (codes "secret") ≡ true)
    ↔ (codes "Bearer secret" ≡ codes "Bearer " ++ codes "secret")
bearer_token_matches_iff_example = bearer_token_matches_iff (codes "Bearer secret") (codes "secret")

abbrev count : ℕ → ℕ × ℕ
count n = (n, n + 1)

abbrev headers : Map Bytes Bytes
headers = (codes "authorization", codes "Bearer secret") ∷ []

require_authentication-exact_example :
    let run = require_authentication plain_headers (some (codes "secret")) headers count 3 in
    (HasToken plain_headers (codes "secret") headers → run ≡ (answered 3, 4))
    × ((HasToken plain_headers (codes "secret") headers → ⊥) → run ≡ (unauthorized, 3))
require_authentication-exact_example =
    require_authentication-exact plain_headers (codes "secret") headers count 3

-- The headers of a write at the offset 1024 with the mode 0o644.
abbrev write_headers : Map Bytes Bytes
write_headers = (file_offset, codes "1024") ∷ (file_mode, codes "644") ∷ []

offset_there : plain_headers.get write_headers file_offset ≡ some (codes "1024")
unfolding bytes_eq_instance Map.lookup
offset_there = refl

mode_there : plain_headers.get write_headers file_mode ≡ some (codes "644")
unfolding bytes_eq_instance Map.lookup
mode_there = refl

offset_text : plain_headers.to_str (codes "1024") ≡ some (format 10 1024)
unfolding format
offset_text = refl

mode_text : plain_headers.to_str (codes "644") ≡ some (format 8 0o644)
unfolding format
mode_text = refl

parse_optional_u64_header-format_example :
    parse_optional_u64_header plain_headers write_headers file_offset ≡ ok (some 1024)
parse_optional_u64_header-format_example =
    parse_optional_u64_header-format plain_headers write_headers file_offset (codes "1024")
      offset_there 1024 (omega arith) offset_text

parse_optional_mode_header-format_example :
    parse_optional_mode_header plain_headers write_headers ≡ ok (some 0o644)
parse_optional_mode_header-format_example =
    parse_optional_mode_header-format plain_headers write_headers file_mode (codes "644") mode_there
      0o644 refl (omega arith) mode_text
