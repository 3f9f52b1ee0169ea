-- ===== src/Server/Handlers/Laws.antt =====
-- What the handlers that remove and rename do to the disk, and when they refuse.
use mathlib.Core.Path.{subst, sym}
use remote_file_system_in_ru.Base.{
  ◌≡◌, ◌≢◌, refl, ◌⊎◌, inl, inr, true, false, not, ◌&&◌, [], ◌∷◌, ◌++◌, Bool-cases, ok, err, is_ok,
  Result-cases,
}
use remote_file_system_in_ru.Base.Bytes.{Bytes}
use remote_file_system_in_ru.FileSystem.{FileSystem, FilePath, Metadata, is_file, is_dir}
use remote_file_system_in_ru.Protocol.{RenameRequest}
use remote_file_system_in_ru.Server.Error.{bad_request}
use remote_file_system_in_ru.Server.PathSecurity.{resolve_non_root_path}
use remote_file_system_in_ru.Server.Handlers.{
  resolve, delete_path, delete_directory, rename_entry, move_entry, check_destination, free,
  path_eq, starts_with,
}
use remote_file_system_in_ru.Server.Handlers.Paths.{path_eq_iff, starts_with_iff}
use remote_file_system_in_ru.Server.Storage.{AppState, World, ◌>>=◌, ◌>>◌, pure, fail, look, io}

longer_ne : (a b : FilePath) (part : Bytes) (rest : FilePath) → b ≡ a ++ part ∷ rest → a ≢ b
longer_ne [] b part rest e h = cc
longer_ne (x ∷ a) [] part rest e h = cc
longer_ne (x ∷ a) (y ∷ b) part rest e h = longer_ne a b part rest (cc e) (cc h)

module _ (F : FileSystem) where
  move_existing :
      (a b : FilePath) (metadata : Metadata) (w : World F)
      → F.symlink_metadata b w.disk ≡ ok metadata
      → (is_ok (move_entry F a b false w).0 ≡ false) × ((move_entry F a b false w).1 ≡ w)
  unfolding move_entry check_destination free ◌>>=◌ ◌>>◌ look fail pure
  move_existing a b metadata w there = elim (Result-cases (F.metadata a w.disk)) [
    | inr (error, m) ↦ rw m (refl, refl)
    | inl (x, m) ↦ elim (Bool-cases (not (is_dir x && starts_with b a))) [
      | inl outside ↦ rw (m, outside, ◌>>◌, check_destination, free, there) (refl, refl)
      | inr inside ↦ rw (m, inside) (refl, refl)
    ]
  ]

module _ (F : FileSystem) (app : AppState) where
  delete_path-run :
      (path : Bytes) (w : World F) (target : FilePath) (metadata : Metadata)
      → resolve_non_root_path F app.root_dir path w.disk ≡ ok target
      → F.metadata target w.disk ≡ ok metadata
      → is_file metadata ≡ true
      → (delete_path F app path w).1.disk ≡ (F.remove_file target w.disk).1
  unfolding delete_path resolve ◌>>=◌ ◌>>◌ look io pure
  delete_path-run path w target metadata e m regular =
      elim (Result-cases (F.remove_file target w.disk).0) [
        | inl (x, r) ↦ rw (e, m, regular, r) refl
        | inr (x, r) ↦ rw (e, m, regular, r) refl
      ]

  -- Whatever a request to delete a file answers, the disk is as before, or the request resolved to
  -- a regular file and the disk is what the removal of that file leaves.
  pub delete_path-disk :
      (path : Bytes) (w : World F)
      → ((delete_path F app path w).1.disk ≡ w.disk)
        ⊎ ((target : FilePath) × (metadata : Metadata) × (resolve_non_root_path F app.root_dir path
                w.disk
              ≡ ok target)
            × (F.metadata target w.disk ≡ ok metadata)
            × (is_file metadata ≡ true)
            × ((delete_path F app path w).1.disk ≡ (F.remove_file target w.disk).1))
  unfolding delete_path resolve ◌>>=◌ ◌>>◌ look io pure fail
  delete_path-disk path w = elim (Result-cases (resolve_non_root_path F app.root_dir path w.disk)) [
    | inr (error, e) ↦ inl (rw e refl)
    | inl (target, e) ↦ elim (Result-cases (F.metadata target w.disk)) [
      | inr (error, m) ↦ inl (rw (e, m) refl)
      | inl (metadata, m) ↦ elim (Bool-cases (is_file metadata)) [
        | inr other ↦ inl (rw (e, m, other) refl)
        | inl regular ↦
            inr
              (target, metadata, e, m, regular, delete_path-run path w target metadata e m regular)
      ]
    ]
  ]

  delete_directory-run :
      (path : Bytes) (w : World F) (target : FilePath) (metadata : Metadata)
      → resolve_non_root_path F app.root_dir path w.disk ≡ ok target
      → F.metadata target w.disk ≡ ok metadata
      → is_dir metadata ≡ true
      → (delete_directory F app path w).1.disk ≡ (F.remove_dir target w.disk).1
  unfolding delete_directory resolve ◌>>=◌ ◌>>◌ look io pure
  delete_directory-run path w target metadata e m directory =
      elim (Result-cases (F.remove_dir target w.disk).0) [
        | inl (x, r) ↦ rw (e, m, directory, r) refl
        | inr (x, r) ↦ rw (e, m, directory, r) refl
      ]

  -- Whatever a request to delete a directory answers, the disk is as before, or the request
  -- resolved to a directory and the disk is what its removal leaves.
  pub delete_directory-disk :
      (path : Bytes) (w : World F)
      → ((delete_directory F app path w).1.disk ≡ w.disk)
        ⊎ ((target : FilePath) × (metadata : Metadata) × (resolve_non_root_path F app.root_dir path
                w.disk
              ≡ ok target)
            × (F.metadata target w.disk ≡ ok metadata)
            × (is_dir metadata ≡ true)
            × ((delete_directory F app path w).1.disk ≡ (F.remove_dir target w.disk).1))
  unfolding delete_directory resolve ◌>>=◌ ◌>>◌ look io pure fail
  delete_directory-disk path w =
      elim (Result-cases (resolve_non_root_path F app.root_dir path w.disk)) [
        | inr (error, e) ↦ inl (rw e refl)
        | inl (target, e) ↦ elim (Result-cases (F.metadata target w.disk)) [
          | inr (error, m) ↦ inl (rw (e, m) refl)
          | inl (metadata, m) ↦ elim (Bool-cases (is_dir metadata)) [
            | inr other ↦ inl (rw (e, m, other) refl)
            | inl directory ↦ inr (
              target,
              metadata,
              e,
              m,
              directory,
              delete_directory-run path w target metadata e m directory,
            )
          ]
        ]
      ]

  module _ (payload : RenameRequest) (w : World F) (a b : FilePath)
      (from_at : resolve_non_root_path F app.root_dir payload.from w.disk ≡ ok a)
      (to_at : resolve_non_root_path F app.root_dir payload.to w.disk ≡ ok b) where
    rename_entry-move :
        a ≢ b → rename_entry F app payload w ≡ move_entry F a b payload.replace_if_exists w
    unfolding rename_entry resolve ◌>>=◌ pure
    rename_entry-move ne = elim (Bool-cases (path_eq a b)) [
      | inl e ↦ absurd (ne ((path_eq_iff a b).0 e))
      | inr e ↦ rw (from_at, to_at, e) refl
    ]

    -- With both paths resolved, moving a directory to a path below itself is answered as a bad
    -- request and changes nothing.
    pub rename_entry-inside :
        (metadata : Metadata) (part : Bytes) (rest : FilePath)
        → F.metadata a w.disk ≡ ok metadata
        → is_dir metadata ≡ true
        → b ≡ a ++ part ∷ rest
        → rename_entry F app payload w
          ≡ (err (bad_request "Cannot move a directory inside itself"), w)
    unfolding move_entry ◌>>=◌ ◌>>◌ look fail
    rename_entry-inside metadata part rest m d below =
        rw
          (
            rename_entry-move (longer_ne a b part rest below),
            m,
            d,
            (starts_with_iff b a).1 (part ∷ rest, below),
          )
          refl

    -- With replace_if_exists off and both paths resolved, a rename to another path where something
    -- stands fails and changes nothing.
    pub rename_entry-existing :
        (metadata : Metadata)
        → a ≢ b
        → payload.replace_if_exists ≡ false
        → F.symlink_metadata b w.disk ≡ ok metadata
        → (is_ok ((rename_entry F app payload w).0) ≡ false)
          × ((rename_entry F app payload w).1 ≡ w)
    rename_entry-existing metadata ne off there =
        let stays = move_existing F a b metadata w there in
        rw (rename_entry-move ne) (
          subst
            (λ replace.
              (is_ok (move_entry F a b replace w).0 ≡ false) × ((move_entry F a b replace w).1 ≡ w))
            (sym off) stays)
