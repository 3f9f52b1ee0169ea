-- ===== src/Server/PathSecurity/Laws.antt =====
-- Storage containment: which paths are accepted, and where they lead.
use mathlib.Core.Bool.{false≢true}
use remote_file_system_in_ru.Base.{
  ◌≡◌, ◌≢◌, refl, sym, ◌∙◌, Bool, true, false, none, some, List, [], ◌∷◌, ◌++◌, append-nil,
  append_assoc, arith, if◌then◌else◌, All, ok, inl, inr, Bool-cases, ok-injective,
}
use remote_file_system_in_ru.Base.Bytes.{Bytes, bytes_eq, bytes_eq_iff, codes}
use remote_file_system_in_ru.FileSystem.{FilePath}
use remote_file_system_in_ru.Text.Slashes.{
  Component, normal, cur_dir, parent_dir, root_dir, components, piece_component, piece_components,
  relative_components, has_root, prepend, trim_matches, split, join, NoSlash, IsNormal,
}
use remote_file_system_in_ru.Text.Slashes.Laws.{split-NoSlash, split-join, trim_matches-join}
use remote_file_system_in_ru.Server.PathSecurity.{push_components, sanitize_api_path}

-- The components that are names are good names.
abbrev IsGood : Component → Type 0
IsGood root_dir = Unit
IsGood cur_dir = Unit
IsGood parent_dir = Unit
IsGood (normal part) = IsNormal part

prepend-IsGood :
    (first : Bool) (piece : Bytes) (rest : List Component)
    → NoSlash piece
    → All IsGood rest
    → All IsGood (prepend (piece_component first piece) rest)
unfolding piece_component
prepend-IsGood first piece rest bars good = elim (Bool-cases (bytes_eq piece [])) [
  | inl empty ↦ rw empty good
  | inr full ↦ rw full (elim (Bool-cases (bytes_eq piece (codes "."))) [
    | inl dot ↦ rw dot (dot-IsGood first)
    | inr not_dot ↦ rw not_dot (elim (Bool-cases (bytes_eq piece (codes ".."))) [
      | inl up ↦ rw up (tt, good)
      | inr name ↦ rw name (
        record {
          not_empty = bytes_ne full;
          not_dot = bytes_ne not_dot;
          not_dot_dot = bytes_ne name;
          no_slash = bars;
        },
        good,
      )
    ])
  ])
]
  where
    bytes_ne : {s t : Bytes} → bytes_eq s t ≡ false → s ≢ t
    bytes_ne {s} {t} h e = absurd (false≢true (sym h ∙ (bytes_eq_iff s t).1 e))

    dot-IsGood : (first : Bool) → All IsGood (prepend (if first then some cur_dir else none) rest)
    dot-IsGood true = (tt, good)
    dot-IsGood false = good

piece_components-IsGood :
    (pieces : List Bytes) → All NoSlash pieces → All IsGood (piece_components pieces)
unfolding piece_components
piece_components-IsGood [] h = tt
piece_components-IsGood (piece ∷ pieces) h =
    prepend-IsGood false piece (piece_components pieces) h.0 (piece_components-IsGood pieces h.1)

components-IsGood : (path : Bytes) → All IsGood (components path)
unfolding components
components-IsGood path = elim (Bool-cases (has_root path)) [
  | inl rooted ↦ rw rooted (tt, piece_components-IsGood (split path) (split-NoSlash path))
  | inr relative ↦ rw relative (relative_components-IsGood (split path) (split-NoSlash path))
]
  where
    relative_components-IsGood :
        (pieces : List Bytes) → All NoSlash pieces → All IsGood (relative_components pieces)
    relative_components-IsGood [] h = tt
    relative_components-IsGood (piece ∷ pieces) h =
        prepend-IsGood true piece (piece_components pieces) h.0 (piece_components-IsGood pieces h.1)

All-append_one :
    (P : Bytes → Type 0) (parts : FilePath) (part : Bytes)
    → All P parts
    → P part
    → All P (parts ++ part ∷ [])
All-append_one P [] part h p = (p, tt)
All-append_one P (x ∷ parts) part h p = (h.0, All-append_one P parts part h.1 p)

push_components-IsNormal :
    (relative_path : FilePath) (cs : List Component) (parts : FilePath)
    → All IsNormal relative_path
    → All IsGood cs
    → push_components relative_path cs ≡ ok parts
    → All IsNormal parts
unfolding push_components
push_components-IsNormal relative_path [] parts h good e = rw (ok-injective e) at h
push_components-IsNormal relative_path (normal part ∷ cs) parts h good e =
    push_components-IsNormal (relative_path ++ part ∷ []) cs parts
      (All-append_one IsNormal relative_path part h good.0) good.1 e
push_components-IsNormal relative_path (_ ∷ cs) parts h good e = absurd (cc)

-- Every component of a sanitized path is an ordinary name: not empty, not a dot or two, without a
-- slash.
pub sanitize_api_path-IsNormal :
    (path : Bytes) (parts : FilePath) → sanitize_api_path path ≡ ok parts → All IsNormal parts
unfolding sanitize_api_path
sanitize_api_path-IsNormal path parts e = elim (Bool-cases (bytes_eq (trim_matches path) [])) [
  | inl empty ↦ let none_left : [] ≡ parts = ok-injective (rw empty at e) in rw (← none_left) tt
  | inr full ↦
      push_components-IsNormal [] (components (trim_matches path)) parts tt
        (components-IsGood (trim_matches path)) (rw full at e)
]

piece_component-normal :
    (first : Bool) (part : Bytes) → IsNormal part → piece_component first part ≡ some (normal part)
unfolding piece_component
piece_component-normal first part h =
    let full : bytes_eq part [] ≡ false = differ h.not_empty in
    let not_dot : bytes_eq part (codes ".") ≡ false = differ h.not_dot in
    let name : bytes_eq part (codes "..") ≡ false = differ h.not_dot_dot in rw (full, not_dot, name)
  where
    differ : {s t : Bytes} → s ≢ t → bytes_eq s t ≡ false
    differ {s} {t} ne = elim (Bool-cases (bytes_eq s t)) [
      | inl same ↦ absurd (ne ((bytes_eq_iff s t).0 same))
      | inr other ↦ other
    ]

push_components-normal :
    (relative_path pieces : FilePath)
    → All IsNormal pieces
    → push_components relative_path (piece_components pieces) ≡ ok (relative_path ++ pieces)
unfolding push_components piece_components
push_components-normal relative_path [] h = rw append-nil
push_components-normal relative_path (piece ∷ pieces) h =
    rw (piece_component-normal false piece h.0)
      (push_components-normal (relative_path ++ piece ∷ []) pieces h.1 ∙ rw append_assoc)

has_root-join :
    (piece : Bytes) (pieces : FilePath) → IsNormal piece → has_root (join (piece ∷ pieces)) ≡ false
unfolding join
has_root-join [] pieces h = absurd (h.not_empty refl)
has_root-join (c ∷ piece) [] h = let other = h.no_slash.0 in ground arith
has_root-join (c ∷ piece) (next ∷ pieces) h = let other = h.no_slash.0 in ground arith

All-NoSlash : (pieces : FilePath) → All IsNormal pieces → All NoSlash pieces
All-NoSlash [] h = tt
All-NoSlash (piece ∷ pieces) h = (h.0.no_slash, All-NoSlash pieces h.1)

join-not_empty :
    (piece : Bytes) (pieces : FilePath)
    → IsNormal piece
    → bytes_eq (join (piece ∷ pieces)) [] ≡ false
unfolding join bytes_eq
join-not_empty [] pieces h = absurd (h.not_empty refl)
join-not_empty (c ∷ piece) [] h = refl
join-not_empty (c ∷ piece) (next ∷ pieces) h = refl

-- A path joined from ordinary names by slashes sanitizes to those names.
pub sanitize_api_path-join :
    (piece : Bytes) (pieces : FilePath)
    → All IsNormal (piece ∷ pieces)
    → sanitize_api_path (join (piece ∷ pieces)) ≡ ok (piece ∷ pieces)
unfolding sanitize_api_path components push_components
sanitize_api_path-join piece pieces h =
    rw
      (
        trim_matches-join piece pieces h,
        join-not_empty piece pieces h.0,
        has_root-join piece pieces h.0,
        split-join piece pieces (All-NoSlash (piece ∷ pieces) h),
        piece_component-normal true piece h.0,
      )
      (push_components-normal (piece ∷ []) pieces h.1)
