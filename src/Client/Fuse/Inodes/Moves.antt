-- ===== src/Client/Fuse/Inodes/Moves.antt =====
-- The tables behind the removal and the renaming of paths.
use remote_file_system_in_ru.Base.{
  ℕ, ◌≤◌, ◌<◌, ◌≡◌, ◌≢◌, refl, sym, Bool, none, some, List, [], ◌∷◌, ◌==◌, arith, inl, inr, All,
  Bool-cases, Option-cases,
}
use remote_file_system_in_ru.Base.Bytes.{Bytes, bytes_eq_instance}
use remote_file_system_in_ru.Base.Equality.{nat_eq}
use remote_file_system_in_ru.Base.Map
use remote_file_system_in_ru.Base.Map.{
  Map, NodupKeys, lookup-remove, remove-NodupKeys, retain-NodupKeys,
}
use remote_file_system_in_ru.Client.Fuse.{OpenHandle}
use remote_file_system_in_ru.Client.Fuse.Renames.{
  Caches, is_at_or_below, paths_at_or_below, entries_at_or_below, forget_path, forget_paths,
  remove_paths, moved_path, insert_moved, rename_caches, rename_handles,
}
use remote_file_system_in_ru.Client.Fuse.Inodes.{
  IsUnused, IsPathTable, IsHandleTable, lookup-remove-some, lookup-insert-some, smaller-IsPathTable,
  insert-IsPathTable,
}

abbrev pub IsWithin : Map Bytes ℕ → Map Bytes ℕ → Type 0
IsWithin smaller paths =
    (path : Bytes) (ino : ℕ) → Map.lookup path smaller ≡ some ino → Map.lookup path paths ≡ some ino

module _ (paths : Map Bytes ℕ) where
  remove-IsWithin : (gone : Bytes) → IsWithin (Map.remove gone paths) paths
  remove-IsWithin gone path ino found = (lookup-remove-some gone path ino paths found).1

-- Forgetting paths leaves a part of the table.
forget_path-IsPathTable :
    (next : ℕ) (gone : Bytes) (caches : Caches)
    → IsPathTable next caches.0
    → IsPathTable next (forget_path gone caches).0 × IsWithin (forget_path gone caches).0 caches.0
unfolding forget_path
forget_path-IsPathTable next gone caches h = elim (Option-cases (Map.lookup gone caches.0)) [
  | inl missing ↦ rw (missing, forget_path) (h, λ path ino found. found)
  | inr (ino, there) ↦
      rw (there, forget_path)
        (
          smaller-IsPathTable next caches.0 _ (remove-NodupKeys gone caches.0 h.keys)
              (remove-IsWithin caches.0 gone) h,
          remove-IsWithin caches.0 gone,
        )
]

pub forget_paths-IsPathTable :
    (next : ℕ) (gone : List Bytes) (caches : Caches)
    → IsPathTable next caches.0
    → IsPathTable next (forget_paths gone caches).0 × IsWithin (forget_paths gone caches).0 caches.0
unfolding forget_paths
forget_paths-IsPathTable next [] caches h = (h, λ path ino found. found)
forget_paths-IsPathTable next (path ∷ gone) caches h =
    let (table, within) = forget_path-IsPathTable next path caches h in
    let (rest, inside) = forget_paths-IsPathTable next gone (forget_path path caches) table in
    (rest, λ p i found. within p i (inside p i found))

remove_paths-IsPathTable :
    (next : ℕ) (moved paths : Map Bytes ℕ)
    → IsPathTable next paths
    → IsPathTable next (remove_paths moved paths) × IsWithin (remove_paths moved paths) paths
unfolding remove_paths
remove_paths-IsPathTable next [] paths h = (h, λ path ino found. found)
remove_paths-IsPathTable next ((path, ino) ∷ moved) paths h =
    let smaller =
      smaller-IsPathTable next paths _ (remove-NodupKeys path paths h.keys)
        (remove-IsWithin paths path) h in
    let (rest, inside) = remove_paths-IsPathTable next moved (Map.remove path paths) smaller in
    (rest, λ p i found. remove-IsWithin paths path p i (inside p i found))

abbrev IsGone : Bytes → Map Bytes ℕ → Type 0
IsGone path paths = (ino : ℕ) → Map.lookup path paths ≢ some ino

remove-IsGone : (path : Bytes) (paths : Map Bytes ℕ) → IsGone path (Map.remove path paths)
remove-IsGone path paths ino found =
    let different = (lookup-remove-some path path ino paths found).0 in
    let same = (bytes_eq_instance.beq_iff path path).1 refl in absurd (ground arith)

remove_paths-IsGone :
    (next : ℕ) (moved paths : Map Bytes ℕ)
    → IsPathTable next paths
    → All (λ entry. IsGone entry.0 (remove_paths moved paths)) moved
unfolding remove_paths
remove_paths-IsGone next [] paths h = tt
remove_paths-IsGone next ((path, ino) ∷ moved) paths h =
    let smaller =
      smaller-IsPathTable next paths _ (remove-NodupKeys path paths h.keys)
        (remove-IsWithin paths path) h in
    (
      λ i found.
          remove-IsGone path paths i
            ((remove_paths-IsPathTable next moved (Map.remove path paths) smaller).1 path i found),
      remove_paths-IsGone next moved (Map.remove path paths) smaller,
    )

-- Entries that may be inserted one after the other.
abbrev IsMovable : ℕ → Map Bytes ℕ → Map Bytes ℕ → Type 0
IsMovable next [] paths = Unit
IsMovable next ((path, ino) ∷ moved) paths =
    ((1 ≤ ino) × (ino < next))
    × IsUnused ino paths
    × All (λ entry. ino ≢ entry.1) moved
    × IsMovable next moved paths

insert-IsMovable :
    (next : ℕ) (moved paths : Map Bytes ℕ) (path : Bytes) (ino : ℕ)
    → All (λ entry. ino ≢ entry.1) moved
    → IsMovable next moved paths
    → IsMovable next moved (Map.insert path ino paths)
insert-IsMovable next [] paths path ino apart h = tt
insert-IsMovable next ((old, i) ∷ moved) paths path ino apart h = (
  h.0,
  λ q found. elim (lookup-insert-some path q i ino paths found) [
    | inl (same, e) ↦ absurd (apart.0 e)
    | inr (other, before) ↦ h.1 q before
  ],
  h.2,
  insert-IsMovable next moved paths path ino apart.1 h.3,
)

insert_moved-IsPathTable :
    (next : ℕ) (from to : Bytes) (moved paths : Map Bytes ℕ)
    → IsMovable next moved paths
    → IsPathTable next paths
    → IsPathTable next (insert_moved from to moved paths)
unfolding insert_moved
insert_moved-IsPathTable next from to [] paths movable h = h
insert_moved-IsPathTable next from to ((old, ino) ∷ moved) paths movable h =
    insert_moved-IsPathTable next from to moved _
      (insert-IsMovable next moved paths (moved_path from to old) ino movable.2 movable.3)
      (insert-IsPathTable next paths (moved_path from to old) ino movable.0
        (λ other found. absurd (movable.1 other found)) h)

abbrev IsFrom : Map Bytes ℕ → Map Bytes ℕ → Type 0
IsFrom paths moved = All (λ entry. Map.lookup entry.0 paths ≡ some entry.1) moved

module _ (next : ℕ) (paths rest : Map Bytes ℕ) (h : IsPathTable next paths)
    (within : IsWithin rest paths) where
  -- Entries of a table with different paths have different inodes.
  apart_of_NodupKeys :
      (path : Bytes) (ino : ℕ) (moved : Map Bytes ℕ)
      → Map.lookup path paths ≡ some ino
      → Map.lookup path moved ≡ none
      → IsFrom paths moved
      → All (λ entry. ino ≢ entry.1) moved
  unfolding Map.lookup
  apart_of_NodupKeys path ino [] there missing all = tt
  apart_of_NodupKeys path ino ((old, i) ∷ moved) there missing all =
      elim (Bool-cases (bytes_eq_instance.beq old path)) [
        | inl same ↦ absurd (ground arith)
        | inr other ↦ (
          λ e.
              let same =
                (bytes_eq_instance.beq_iff old path).1
                  (h.distinct old path i all.0 (rw (← e) there)) in
              absurd (ground arith),
          apart_of_NodupKeys path ino moved there (rw other at missing) all.1,
        )
      ]

  IsMovable-of_IsFrom :
      (moved : Map Bytes ℕ)
      → NodupKeys moved
      → IsFrom paths moved
      → All (λ entry. IsGone entry.0 rest) moved
      → IsMovable next moved rest
  IsMovable-of_IsFrom [] nodup all gone = tt
  IsMovable-of_IsFrom ((path, ino) ∷ moved) nodup all gone = (
    h.given_out path ino all.0,
    λ q found. gone.0 ino (rw (h.distinct q path ino (within q ino found) all.0) at found),
    apart_of_NodupKeys path ino moved all.0 nodup.0 all.1,
    IsMovable-of_IsFrom moved nodup.1 all.1 gone.1,
  )

-- Every entry of a table without double keys is the one that is found.
IsFrom-weaken :
    (path : Bytes) (ino : ℕ) (paths moved : Map Bytes ℕ)
    → Map.lookup path moved ≡ none
    → IsFrom paths moved
    → IsFrom ((path, ino) ∷ paths) moved
unfolding Map.lookup
IsFrom-weaken path ino paths [] missing all = tt
IsFrom-weaken path ino paths ((old, i) ∷ moved) missing all =
    elim (Bool-cases (bytes_eq_instance.beq old path)) [
      | inl same ↦ absurd (ground arith)
      | inr other ↦ (
        elim (Bool-cases (bytes_eq_instance.beq path old)) [
          | inl same ↦
              let e =
                (bytes_eq_instance.beq_iff old path).1
                  (sym ((bytes_eq_instance.beq_iff path old).0 same)) in
              absurd (ground arith)
          | inr different ↦ rw different all.0
        ],
        IsFrom-weaken path ino paths moved (rw other at missing) all.1,
      )
    ]

IsFrom-refl : (paths : Map Bytes ℕ) → NodupKeys paths → IsFrom paths paths
unfolding Map.lookup
IsFrom-refl [] h = tt
IsFrom-refl ((path, ino) ∷ paths) h = (
  rw ((bytes_eq_instance.beq_iff path path).1 refl),
  IsFrom-weaken path ino paths paths h.0 (IsFrom-refl paths h.1),
)

retain-IsFrom :
    (p : Bytes → ℕ → Bool) (paths moved : Map Bytes ℕ)
    → IsFrom paths moved
    → IsFrom paths (Map.retain p moved)
unfolding Map.retain
retain-IsFrom p paths [] all = tt
retain-IsFrom p paths ((path, ino) ∷ moved) all = elim (Bool-cases (p path ino)) [
  | inl kept ↦ rw kept (all.0, retain-IsFrom p paths moved all.1)
  | inr dropped ↦ rw dropped (retain-IsFrom p paths moved all.1)
]

pub rename_caches-IsPathTable :
    (next : ℕ) (from to : Bytes) (caches : Caches)
    → IsPathTable next caches.0
    → IsPathTable next (rename_caches from to caches).0
unfolding rename_caches entries_at_or_below
rename_caches-IsPathTable next from to caches h =
    let moved = entries_at_or_below from caches.0 in
    let (left, left_within) =
      forget_paths-IsPathTable next (paths_at_or_below to caches.0) caches h in
    let (rest, rest_within) = remove_paths-IsPathTable next moved _ left in
    insert_moved-IsPathTable next from to moved _
      (IsMovable-of_IsFrom next caches.0 _ h (λ p i found. left_within p i (rest_within p i found))
        moved (retain-NodupKeys (λ path ino. is_at_or_below from path) caches.0 h.keys)
        (retain-IsFrom _ caches.0 caches.0 (IsFrom-refl caches.0 h.keys))
        (remove_paths-IsGone next moved _ left))
      rest

-- The numbers of the handles stay.
lookup-rename_handles :
    (from to : Bytes) (fh : ℕ) (handle : OpenHandle) (handles : Map ℕ OpenHandle)
    → Map.lookup fh (rename_handles from to handles) ≡ some handle
    → (old : OpenHandle) × (Map.lookup fh handles ≡ some old)
unfolding Map.lookup rename_handles
lookup-rename_handles from to fh handle [] found = absurd (ground arith)
lookup-rename_handles from to fh handle ((k, old) ∷ handles) found = elim (Bool-cases (k == fh)) [
  | inl same ↦ (old, rw same)
  | inr other ↦
      let rest : Map.lookup fh (rename_handles from to handles) ≡ some handle =
        elim (Bool-cases (is_at_or_below from old.path)) [
          | inl moved ↦ rw (moved, other) at found
          | inr stays ↦ rw (stays, other) at found
        ] in
      let (there, e) = lookup-rename_handles from to fh handle handles rest in (there, rw other e)
]

pub rename_handles-IsHandleTable :
    (next : ℕ) (from to : Bytes) (handles : Map ℕ OpenHandle)
    → IsHandleTable next handles
    → IsHandleTable next (rename_handles from to handles)
rename_handles-IsHandleTable next from to handles h fh handle found =
    let (old, there) = lookup-rename_handles from to fh handle handles found in h fh old there
