-- ===== src/Client/Fuse/Directories/Order.antt =====
-- The order of a listing.
use mathlib.Core.Path.{subst}
use remote_file_system_in_ru.Base.{
  ok-injective, ◌≡◌, refl, true, false, List, [], ◌∷◌, arith, inl, inr, Bool-cases, ok,
}
use remote_file_system_in_ru.Base.Bytes.{Bytes}
use remote_file_system_in_ru.Base.Effect.{bind-answer, ◌>>◌, pure}
use remote_file_system_in_ru.FileSystem.{FileSystem}
use remote_file_system_in_ru.Protocol.{DirectoryEntry}
use remote_file_system_in_ru.Client.Api.{Transport}
use remote_file_system_in_ru.Client.Fuse.{RemoteFs, MountSettings}
use remote_file_system_in_ru.Client.Fuse.Tables.{asks, modify}
use remote_file_system_in_ru.Client.Fuse.Directories.{
  bytes_lt, insert_entry, sort_entries, fetch_directory,
}

-- No entry's name comes before the name of the entry that precedes it.
abbrev pub IsSorted : List DirectoryEntry → Type 0
IsSorted [] = Unit
IsSorted (entry ∷ []) = Unit
IsSorted (entry ∷ next ∷ rest) = (bytes_lt next.name entry.name ≡ false) × IsSorted (next ∷ rest)

bytes_lt_asymmetric : (s t : Bytes) → bytes_lt s t ≡ true → bytes_lt t s ≡ false
unfolding bytes_lt
bytes_lt_asymmetric s [] h = absurd (ground arith)
bytes_lt_asymmetric [] (d ∷ t) h = refl
bytes_lt_asymmetric (c ∷ s) (d ∷ t) h = ground (arith, bytes_lt_asymmetric s t)

insert_entry-IsSorted :
    (entry : DirectoryEntry) (entries : List DirectoryEntry)
    → IsSorted entries
    → IsSorted (insert_entry entry entries)
unfolding insert_entry
insert_entry-IsSorted entry [] h = tt
insert_entry-IsSorted entry (next ∷ []) h = elim (Bool-cases (bytes_lt next.name entry.name)) [
  | inl before ↦ rw before (bytes_lt_asymmetric next.name entry.name before, tt)
  | inr behind ↦ rw behind (behind, tt)
]
insert_entry-IsSorted entry (next ∷ third ∷ rest) h =
    elim (Bool-cases (bytes_lt next.name entry.name)) [
      | inr behind ↦ rw behind (behind, h)
      | inl before ↦
          let tail = insert_entry-IsSorted entry (third ∷ rest) h.1 in
          elim (Bool-cases (bytes_lt third.name entry.name)) [
            | inl further ↦ rw (before, further) (h.0, rw further at tail)
            | inr here ↦
                rw (before, here) (bytes_lt_asymmetric next.name entry.name before, rw here at tail)
          ]
    ]

sort_entries-IsSorted : (entries : List DirectoryEntry) → IsSorted (sort_entries entries)
unfolding sort_entries
sort_entries-IsSorted [] = tt
sort_entries-IsSorted (entry ∷ entries) =
    insert_entry-IsSorted entry (sort_entries entries) (sort_entries-IsSorted entries)

-- A directory that is fetched from the server, with the files that wait below it, is listed in the
-- order of the names.
pub fetch_directory-IsSorted :
    (F : FileSystem) (T : Transport) (mount : MountSettings) (cache_key : Bytes) (s : RemoteFs F T)
    (entries : List DirectoryEntry)
    → (fetch_directory F T mount cache_key s).0 ≡ ok entries
    → IsSorted entries
unfolding fetch_directory ◌>>◌ asks modify pure
fetch_directory-IsSorted F T mount cache_key s entries h =
    bind-answer IsSorted _ _
      (λ listed t b e.
        bind-answer IsSorted _ _
          (λ pending t b e.
            bind-answer IsSorted _ _
              (λ found t b e. subst IsSorted (ok-injective e) (sort_entries-IsSorted found)) t b e)
          t b e)
      s entries h
