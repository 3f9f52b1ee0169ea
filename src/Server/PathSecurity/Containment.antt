-- ===== src/Server/PathSecurity/Containment.antt =====
-- Storage containment of resolved paths, over any file system.
use remote_file_system_in_ru.Base.{
  ◌≡◌, ◌≢◌, refl, false, some, [], ◌∷◌, ◌++◌, append-nil, append_assoc, arith, All, ok, err, inl,
  inr, Result-cases,
}
use remote_file_system_in_ru.Base.Bytes.{Bytes, bytes_eq_iff}
use remote_file_system_in_ru.FileSystem.{not_found, FilePath, FileSystem, Metadata, is_symlink}
use remote_file_system_in_ru.Text.Slashes.{IsNormal}
use remote_file_system_in_ru.Server.PathSecurity.{
  internal_dir_name, head?, sanitize_api_path, reject_internal_path, reject_link_components,
  check_relative, resolve_path, check_non_root, resolve_non_root_path,
}
use remote_file_system_in_ru.Server.PathSecurity.Laws.{sanitize_api_path-IsNormal}

-- Nothing stands below a path where nothing stands.
abbrev pub NothingBelow : (F : FileSystem) → F.State → Type 0
NothingBelow F s =
    (p : FilePath) (part : Bytes)
    → F.symlink_metadata p s ≡ err not_found
    → F.symlink_metadata (p ++ part ∷ []) s ≡ err not_found

-- No entry on the way from `root` down `rel` is a symbolic link.
abbrev pub IsLinkFree : (F : FileSystem) → F.State → FilePath → FilePath → Type 0
IsLinkFree F s root rel =
    (a b : FilePath) (m : Metadata)
    → rel ≡ a ++ b
    → a ≢ []
    → F.symlink_metadata (root ++ a) s ≡ ok m
    → is_symlink m ≡ false

-- A resolved path: names below the root, outside the server's own directory, past no link.
pub record IsContained (F : FileSystem) (s : F.State) (root rel : FilePath) : Type 0 where
  pub names : All IsNormal rel
  pub not_internal : head? rel ≢ some internal_dir_name
  pub link_free : IsLinkFree F s root rel

module _ (F : FileSystem) (s : F.State) (below : NothingBelow F s) where
  pub missing-append :
      (p rest : FilePath)
      → F.symlink_metadata p s ≡ err not_found
      → F.symlink_metadata (p ++ rest) s ≡ err not_found
  missing-append p [] h = rw append-nil h
  missing-append p (part ∷ rest) h =
      rw (append_assoc p (part ∷ []) rest) at
        (missing-append (p ++ part ∷ []) rest (below p part h))

  reject_link_components-IsLinkFree :
      (current rel : FilePath)
      → reject_link_components F current rel s ≡ ok tt
      → IsLinkFree F s current rel
  unfolding reject_link_components
  reject_link_components-IsLinkFree current rel h [] b m whole some_part found =
      absurd (some_part refl)
  reject_link_components-IsLinkFree current [] h (x ∷ a) b m whole some_part found = absurd (cc)
  reject_link_components-IsLinkFree current (part ∷ rest) h (x ∷ []) b m whole some_part found =
      let same : part ≡ x = cc in
      let here : F.symlink_metadata (current ++ part ∷ []) s ≡ ok m = rw same found in
      ground (arith, here)
  reject_link_components-IsLinkFree current (part ∷ rest) h (x ∷ y ∷ a) b m whole some_part found =
      let next = current ++ part ∷ [] in
      let same : part ≡ x = cc in
      let longer : current ++ x ∷ y ∷ a ≡ next ++ y ∷ a = rw (same, append_assoc) in
      let there : F.symlink_metadata (next ++ y ∷ a) s ≡ ok m = rw longer at found in
      elim (Result-cases (F.symlink_metadata next s)) [
        | inl (n, e) ↦
            reject_link_components-IsLinkFree next rest (ground arith) (y ∷ a) b m (cc) (λ q. cc)
              there
        | inr (error, e) ↦ ground (arith, missing-append next (y ∷ a))
      ]

  check_relative-IsContained :
      (root rel q : FilePath)
      → All IsNormal rel
      → check_relative F root rel s ≡ ok q
      → (q ≡ root ++ rel) × IsContained F s root rel
  unfolding check_relative
  check_relative-IsContained root rel q names h = elim (Result-cases (reject_internal_path rel)) [
    | inr (error, e) ↦ absurd (cc (rw (e, check_relative) at h))
    | inl (_, e) ↦ elim (Result-cases (reject_link_components F root rel s)) [
      | inr (error, d) ↦ absurd (cc (rw (e, d, check_relative) at h))
      | inl (_, d) ↦ (
        ground arith,
        record {
          names = names;
          not_internal = λ p. ground (arith, bytes_eq_iff internal_dir_name internal_dir_name);
          link_free = reject_link_components-IsLinkFree root rel (ground arith);
        },
      )
    ]
  ]

  -- On a disk where nothing stands below a missing path, a path that a reading request resolves to
  -- lies at ordinary names below the root, outside the server's own directory and past no symbolic
  -- link.
  pub resolve_path-IsContained :
      (root : FilePath) (path : Bytes) (q : FilePath)
      → resolve_path F root path s ≡ ok q
      → (rel : FilePath) × (q ≡ root ++ rel) × IsContained F s root rel
  unfolding resolve_path
  resolve_path-IsContained root path q h = elim (Result-cases (sanitize_api_path path)) [
    | inr (error, e) ↦ absurd (cc (rw (e, resolve_path) at h))
    | inl (rel, e) ↦
        let (at, inside) =
          check_relative-IsContained root rel q (sanitize_api_path-IsNormal path rel e)
            (rw (e, resolve_path) at h) in
        (rel, at, inside)
  ]

  check_non_root-check_relative :
      (root rel q : FilePath)
      → check_non_root F root rel s ≡ ok q
      → (rel ≢ []) × (check_relative F root rel s ≡ ok q)
  check_non_root-check_relative root [] q h = absurd (cc)
  check_non_root-check_relative root (part ∷ rest) q h = (λ e. cc, h)

  -- On a disk where nothing stands below a missing path, a path that a mutating request resolves
  -- to lies at ordinary names below the root, outside the server's own directory, past no symbolic
  -- link, and is not the root.
  pub resolve_non_root_path-IsContained :
      (root : FilePath) (path : Bytes) (q : FilePath)
      → resolve_non_root_path F root path s ≡ ok q
      → (rel : FilePath) × (q ≡ root ++ rel) × (rel ≢ []) × IsContained F s root rel
  unfolding resolve_non_root_path
  resolve_non_root_path-IsContained root path q h = elim (Result-cases (sanitize_api_path path)) [
    | inr (error, e) ↦ absurd (cc (rw (e, resolve_non_root_path) at h))
    | inl (rel, e) ↦
        let (not_root, checked) =
          check_non_root-check_relative root rel q (rw (e, resolve_non_root_path) at h) in
        let (at, inside) =
          check_relative-IsContained root rel q (sanitize_api_path-IsNormal path rel e) checked in
        (rel, at, not_root, inside)
  ]
