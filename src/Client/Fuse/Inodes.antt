-- ===== src/Client/Fuse/Inodes.antt =====
-- The tables of paths and handles: no two paths share an inode, and numbers that are in use were
-- given out before.
pub mod Moves
use remote_file_system_in_ru.Base.{
  ℕ, ◌+◌, ◌≤◌, ◌<◌, ◌≡◌, ◌≢◌, refl, sym, ap, ◌∙◌, Bool, true, false, Option, none, some, List, [],
  ◌∷◌, ◌==◌, arith, if◌then◌else◌, inl, inr, ◌⊎◌, Bool-cases, Option-cases,
}
use remote_file_system_in_ru.Base.Bytes.{Bytes, bytes_eq, bytes_eq_iff, bytes_eq_instance}
use remote_file_system_in_ru.Base.Equality.{Eq, nat_eq}
use remote_file_system_in_ru.Base.Map
use remote_file_system_in_ru.Base.Map.{
  Map, NodupKeys, lookup-insert, lookup-remove, insert-NodupKeys,
}
use remote_file_system_in_ru.FileSystem.{FileSystem}
use remote_file_system_in_ru.Client.Api.{Transport}
use remote_file_system_in_ru.Client.Fuse.{OpenHandle, RemoteFs}

-- No path has the inode.
abbrev pub IsUnused : ℕ → Map Bytes ℕ → Type 0
IsUnused ino paths = (path : Bytes) → Map.lookup path paths ≢ some ino

pub record IsPathTable (next_inode : ℕ) (paths : Map Bytes ℕ) : Type 0 where
  pub keys : NodupKeys paths
  pub given_out :
      (path : Bytes) (ino : ℕ) → Map.lookup path paths ≡ some ino → (1 ≤ ino) × (ino < next_inode)
  pub distinct :
      (path other : Bytes) (ino : ℕ)
      → Map.lookup path paths ≡ some ino
      → Map.lookup other paths ≡ some ino
      → path ≡ other

abbrev pub IsHandleTable : ℕ → Map ℕ OpenHandle → Type 0
IsHandleTable next_handle handles =
    (fh : ℕ) (handle : OpenHandle)
    → Map.lookup fh handles ≡ some handle
    → (1 ≤ fh) × (fh < next_handle)

pub record IsMount {F : FileSystem} {T : Transport} (s : RemoteFs F T) : Type 0 where
  pub inodes_left : 1 ≤ s.next_inode
  pub handles_left : 1 ≤ s.next_handle
  pub paths : IsPathTable s.next_inode s.path_to_inode
  pub handles : IsHandleTable s.next_handle s.open_handles

-- What is found behind an insertion or a removal was there before.
module _ {ℓ κ} {K : Type ℓ} {V : Type κ} ⦃e : Eq K⦄ where
  pub lookup-remove-some :
      (k j : K) (v : V) (m : Map K V)
      → Map.lookup j (Map.remove k m) ≡ some v
      → (e.beq k j ≡ false) × (Map.lookup j m ≡ some v)
  lookup-remove-some k j v m found = elim (Bool-cases (e.beq k j)) [
    | inl same ↦ absurd (ground (arith, lookup-remove k j m))
    | inr other ↦ (other, ground (arith, lookup-remove k j m))
  ]

  pub lookup-insert-some :
      (k j : K) (v w : V) (m : Map K V)
      → Map.lookup j (Map.insert k w m) ≡ some v
      → ((k ≡ j) × (w ≡ v)) ⊎ ((e.beq k j ≡ false) × (Map.lookup j m ≡ some v))
  lookup-insert-some k j v w m found = elim (Bool-cases (e.beq k j)) [
    | inl same ↦ inl ((e.beq_iff k j).0 same, ground (arith, lookup-insert k j w m))
    | inr other ↦ inr (other, ground (arith, lookup-insert k j w m))
  ]

-- A table with fewer entries, and one that gives its numbers out later.
pub smaller-IsPathTable :
    (next : ℕ) (paths smaller : Map Bytes ℕ)
    → NodupKeys smaller
    → ((path : Bytes) (ino : ℕ)
        → Map.lookup path smaller ≡ some ino
        → Map.lookup path paths ≡ some ino)
    → IsPathTable next paths
    → IsPathTable next smaller
smaller-IsPathTable next paths smaller nodup included h = record {
  keys = nodup;
  given_out = λ path ino found. h.given_out path ino (included path ino found);
  distinct = λ path other ino found again.
      h.distinct path other ino (included path ino found) (included other ino again);
}

pub later-IsPathTable :
    (next : ℕ) (paths : Map Bytes ℕ) → IsPathTable next paths → IsPathTable (next + 1) paths
later-IsPathTable next paths h = record {
  keys = h.keys;
  given_out =
      λ path ino found. let (low, high) = h.given_out path ino found in (low, omega (arith, high));
  distinct = h.distinct;
}

-- A number that no other path has may stand for a path.
pub insert-IsPathTable :
    (next : ℕ) (paths : Map Bytes ℕ) (path : Bytes) (ino : ℕ)
    → (1 ≤ ino) × (ino < next)
    → ((other : Bytes) → Map.lookup other paths ≡ some ino → other ≡ path)
    → IsPathTable next paths
    → IsPathTable next (Map.insert path ino paths)
insert-IsPathTable next paths path ino range owner h = record {
  keys = insert-NodupKeys path ino paths h.keys;
  given_out = λ p i found. elim (lookup-insert-some path p i ino paths found) [
    | inl (same, e) ↦ rw (← e) range
    | inr (other, old) ↦ h.given_out p i old
  ];
  distinct = λ p q i found again. elim (lookup-insert-some path p i ino paths found) [
    | inl (same, e) ↦ elim (lookup-insert-some path q i ino paths again) [
      | inl (same', e') ↦ sym same ∙ same'
      | inr (other', old') ↦ sym same ∙ sym (owner q (rw e old'))
    ]
    | inr (other, old) ↦ elim (lookup-insert-some path q i ino paths again) [
      | inl (same', e') ↦ owner p (rw e' old) ∙ same'
      | inr (other', old') ↦ h.distinct p q i old old'
    ]
  ];
}

pub insert-IsHandleTable :
    (next : ℕ) (handles : Map ℕ OpenHandle) (fh : ℕ) (handle : OpenHandle)
    → (1 ≤ fh) × (fh < next)
    → IsHandleTable next handles
    → IsHandleTable next (Map.insert fh handle handles)
insert-IsHandleTable next handles fh handle range h k old_handle found =
    elim (lookup-insert-some fh k old_handle handle handles found) [
      | inl (same, e) ↦ rw (← same) range
      | inr (other, old) ↦ h k old_handle old
    ]

pub remove-IsHandleTable :
    (next : ℕ) (handles : Map ℕ OpenHandle) (fh : ℕ)
    → IsHandleTable next handles
    → IsHandleTable next (Map.remove fh handles)
remove-IsHandleTable next handles fh h k handle found =
    h k handle (lookup-remove-some fh k handle handles found).1
