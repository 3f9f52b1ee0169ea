-- ===== src/Text/Slashes.antt =====
-- Slash-separated text: `trim_matches('/')`, `split('/')`, `rsplit('/').next()`, and
-- `Path::components` on Unix.
pub mod Laws
use remote_file_system_in_ru.Base.{
  ℕ, ◌≡◌, ◌≢◌, Bool, true, false, Option, none, some, List, [], ◌∷◌, ◌++◌, ◌==◌, if◌then◌else◌, All,
}
use remote_file_system_in_ru.Base.Bytes.{Bytes, bytes_eq, codes}

abbrev pub slash : ℕ
slash = b'/'

unfoldable pub trim_start : Bytes → Bytes
trim_start [] = []
trim_start (c ∷ s) = if c == slash then trim_start s else c ∷ s

-- A slash before nothing but slashes goes.
unfoldable pub trim_cons : ℕ → Bytes → Bytes
trim_cons c [] = if c == slash then [] else c ∷ []
trim_cons c (d ∷ s) = c ∷ d ∷ s

unfoldable pub trim_end : Bytes → Bytes
unfolding trim_cons
trim_end [] = []
trim_end (c ∷ s) = trim_cons c (trim_end s)

unfoldable pub trim_matches : Bytes → Bytes
unfolding trim_start trim_end
trim_matches s = trim_start (trim_end s)

unfoldable pub cons_head : ℕ → List Bytes → List Bytes
cons_head c [] = (c ∷ []) ∷ []
cons_head c (piece ∷ pieces) = (c ∷ piece) ∷ pieces

unfoldable pub split : Bytes → List Bytes
unfolding cons_head
split [] = [] ∷ []
split (c ∷ s) = let rest = split s in if c == slash then [] ∷ rest else cons_head c rest

-- The pieces with a slash between each two.
unfoldable pub join : List Bytes → Bytes
join [] = []
join (piece ∷ []) = piece
join (piece ∷ next ∷ pieces) = piece ++ slash ∷ join (next ∷ pieces)

unfoldable pub last_or : Bytes → List Bytes → Bytes
last_or piece [] = piece
last_or piece (next ∷ pieces) = last_or next pieces

-- `rsplit('/').next().unwrap_or_default()`.
unfoldable pub file_name : Bytes → Bytes
unfolding split last_or
file_name s = last_or [] (split s)

pub data Component : Type 0 where
  root_dir cur_dir parent_dir : Component
  normal : Bytes → Component

-- The component of one piece. Empty pieces are skipped, and so is `.` but at the beginning.
unfoldable pub piece_component : Bool → Bytes → Option Component
unfolding bytes_eq
piece_component first piece =
    if bytes_eq piece []
    then none
    else if bytes_eq piece (codes ".")
    then (if first then some cur_dir else none)
    else if bytes_eq piece (codes "..")
    then some parent_dir
    else some (normal piece)

abbrev pub prepend : Option Component → List Component → List Component
prepend none components = components
prepend (some component) components = component ∷ components

unfoldable pub piece_components : List Bytes → List Component
unfolding piece_component
piece_components [] = []
piece_components (piece ∷ pieces) = prepend (piece_component false piece) (piece_components pieces)

abbrev pub has_root : Bytes → Bool
has_root [] = false
has_root (c ∷ s) = c == slash

abbrev pub relative_components : List Bytes → List Component
relative_components [] = []
relative_components (piece ∷ pieces) =
    prepend (piece_component true piece) (piece_components pieces)

unfoldable pub components : Bytes → List Component
unfolding piece_components split
components path =
    if has_root path
    then root_dir ∷ piece_components (split path)
    else relative_components (split path)

abbrev pub NoSlash : Bytes → Type 0
NoSlash s = All (λ c. c ≢ slash) s

-- A name of a file or directory: it stands for itself in a path.
pub record IsNormal (part : Bytes) : Type 0 where
  pub not_empty : part ≢ []
  pub not_dot : part ≢ codes "."
  pub not_dot_dot : part ≢ codes ".."
  pub no_slash : NoSlash part
