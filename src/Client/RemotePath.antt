-- ===== src/Client/RemotePath.antt =====
-- `client/src/remote_path.rs` and `client/src/ownership.rs`: slash-separated paths below the root of
-- the mount, and the owner of a remote entry.
use mathlib.Core.Option
use remote_file_system_in_ru.Base.{ℕ, Option, none, some, [], ◌∷◌, ◌++◌, ◌||◌, ◌==◌, if◌then◌else◌}
use remote_file_system_in_ru.Base.Bytes.{Bytes, codes, bytes_eq}
use remote_file_system_in_ru.Text.Slashes.{slash, trim_start, trim_end}

-- The path as the API takes it.
unfoldable pub api : Bytes → Bytes
unfolding trim_start
api path = trim_start path

-- What stands before the last slash, `rfind('/')` with the slice up to it.
unfoldable pub before_last_slash : Bytes → Option Bytes
before_last_slash [] = none
before_last_slash (c ∷ s) = elim (before_last_slash s) [
  | some prefix ↦ some (c ∷ prefix)
  | none ↦ if c == slash then some [] else none
]

abbrev pub root_if_empty : Bytes → Bytes
root_if_empty [] = codes "/"
root_if_empty (c ∷ s) = c ∷ s

unfoldable pub parent : Bytes → Bytes
unfolding before_last_slash trim_end
parent path = elim (before_last_slash (trim_end path)) [
  | none ↦ codes "/"
  | some prefix ↦ root_if_empty prefix
]

unfoldable pub child : Bytes → Bytes → Bytes
unfolding trim_end bytes_eq
child parent_path name =
    if bytes_eq parent_path (codes "/") || bytes_eq parent_path []
    then codes "/" ++ name
    else trim_end parent_path ++ (codes "/" ++ name)

unfoldable pub remote_or_mounting_user : Option ℕ → ℕ → ℕ
remote_or_mounting_user remote_id mounting_id = Option.get_or remote_id mounting_id
