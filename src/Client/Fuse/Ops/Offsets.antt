-- ===== src/Client/Fuse/Ops/Offsets.antt =====
-- What `readdir` answers where a listing is read on.
use remote_file_system_in_ru.Base.{
  ℕ, zero, suc, ◌≤◌, ◌≡◌, refl, List, [], ◌++◌, arith, ap, Bool, false, ltb, ok, inl, inr,
  Result-cases,
}
use remote_file_system_in_ru.Base.Bytes.{Bytes}
use remote_file_system_in_ru.Base.Effect.{◌>>=◌, pure}
use remote_file_system_in_ru.FileSystem.{FileSystem}
use remote_file_system_in_ru.Client.Api.{Transport}
use remote_file_system_in_ru.Client.Fuse.{directory_handle, RemoteFs, MountSettings, at}
use remote_file_system_in_ru.Client.Fuse.Tables.{asks}
use remote_file_system_in_ru.Client.Fuse.Ops.Lookup.{
  Listed, target_path, standard_entries, remaining_entries, skip, fill, readdir, dotdot_inode,
}

skip-nil : (n : ℕ) → skip n [] ≡ []
unfolding skip
skip-nil zero = refl
skip-nil (suc n) = refl

module _ (F : FileSystem) (T : Transport) (mount : MountSettings) (n : ℕ) where
  remaining_entries-continued :
      (path : Bytes) → remaining_entries F T mount path (suc (suc n)) ≡ pure []
  unfolding remaining_entries
  remaining_entries-continued path =
      let not_below : ltb (suc (suc n)) 2 ≡ false = ground arith in rw not_below refl

  nothing_left :
      (full : List Listed → Listed → Bool) (ino dotdot : ℕ)
      → fill full [] (skip (suc (suc n)) (standard_entries F T mount ino dotdot ++ [])) ≡ []
  unfolding skip standard_entries fill
  nothing_left full ino dotdot = rw (skip-nil n) refl

-- From the offset 2 on, readdir answers an empty list and reads no directory, whatever the
-- directory holds: it does nothing but look for the path, so entries that did not fit the reply to
-- an earlier call are never listed.
pub readdir-continued :
    (F : FileSystem) (T : Transport) (mount : MountSettings) (full : List Listed → Listed → Bool)
    (ino fh offset : ℕ) (s : RemoteFs F T)
    → 2 ≤ offset
    → readdir F T mount full ino fh (at offset) s
      ≡ (do current_path ← target_path directory_handle ino fh; pure []) s
unfolding readdir asks ◌>>=◌ pure
readdir-continued F T mount full ino fh zero s h = absurd (omega arith)
readdir-continued F T mount full ino fh (suc zero) s h = absurd (omega arith)
readdir-continued F T mount full ino fh (suc (suc n)) s h =
    elim (Result-cases (target_path {F = F} {T = T} directory_handle ino fh s).0) [
      | inl (path, e) ↦
          let t = (target_path {F = F} {T = T} directory_handle ino fh s).1 in
          rw (e, remaining_entries-continued F T mount n path)
            (ap (λ entries. (ok entries, t))
              (nothing_left F T mount n full ino (dotdot_inode path t)))
      | inr (errno, e) ↦ rw e refl
    ]
