-- ===== src/Client/Fuse/Keeps.antt =====
-- Effects on the mount that keep the tables in order, and how they compose.
use remote_file_system_in_ru.Base.{
  ℕ, ◌+◌, ◌≤◌, ◌<◌, ◌≡◌, Bool, true, false, Option, none, some, arith, if◌then◌else◌, inl, inr,
  Bool-cases, Option-cases, Result, ok, err, Result-cases,
}
use remote_file_system_in_ru.Base.Bytes.{Bytes, bytes_eq_instance}
use remote_file_system_in_ru.Base.Equality.{nat_eq}
use remote_file_system_in_ru.Base.Map
use remote_file_system_in_ru.Base.Effect.{
  match_option, match_result, Effect, ◌>>=◌, ◌>>◌, pure, fail, lift, ignore, attempt, map_error,
}
use remote_file_system_in_ru.FileSystem.{FileSystem}
use remote_file_system_in_ru.Client.Api.{Transport, Call}
use remote_file_system_in_ru.Client.Writeback.{Action}
use remote_file_system_in_ru.Client.Fuse.{FileAttr, HandleKind, OpenHandle, RemoteFs}
use remote_file_system_in_ru.Client.Fuse.Tables.{
  kind_eq, asks, modify, allocate_inode, allocate_handle, mark_handle_dirty, release_handle,
  update_cached_attr, cache_attr,
}
use remote_file_system_in_ru.Client.Fuse.Directories.{
  on_writeback, block_on, invalidate_directory_cache_for_path, invalidate_directory_cache_tree,
}
use remote_file_system_in_ru.Client.Fuse.Renames.{
  paths_at_or_below, remove_cached_path, rename_cached_path,
}
use remote_file_system_in_ru.Client.Fuse.Inodes.Moves.{
  forget_paths-IsPathTable, rename_caches-IsPathTable, rename_handles-IsHandleTable,
}
use remote_file_system_in_ru.Client.Fuse.Inodes.{
  IsMount, IsHandleTable, later-IsPathTable, insert-IsPathTable, insert-IsHandleTable,
  remove-IsHandleTable,
}

module _ {F : FileSystem} {T : Transport} where
  -- The tables are in order behind the effect, whether it returns or fails.
  pub record Keeps {ℓ κ} {E : Type ℓ} {A : Type κ} (m : Effect (RemoteFs F T) E A) : Type 0 where
    pub kept : (s : RemoteFs F T) → IsMount s → IsMount (m s).1

  module _ {ℓ κ} {E : Type ℓ} {A : Type κ} where
    pub Keeps-pure : (a : A) → Keeps {E = E} (pure a)
    unfolding pure
    Keeps-pure a = record { kept = λ s h. h }

    pub Keeps-fail : (e : E) → Keeps {A = A} (fail e)
    unfolding fail
    Keeps-fail e = record { kept = λ s h. h }

    pub Keeps-lift : (r : Result E A) → Keeps (lift r)
    unfolding lift
    Keeps-lift r = record { kept = λ s h. h }

    pub Keeps-if :
        (b : Bool) (m n : Effect (RemoteFs F T) E A)
        → Keeps m
        → Keeps n
        → Keeps (if b then m else n)
    Keeps-if true m n km kn = km
    Keeps-if false m n km kn = kn

    pub Keeps-Option {μ} :
        {B : Type μ} (o : Option B) (m : Effect (RemoteFs F T) E A)
        (f : B → Effect (RemoteFs F T) E A)
        → Keeps m
        → ((b : B) → Keeps (f b))
        → Keeps (match_option o m f)
    unfolding match_option
    Keeps-Option none m f km kf = km
    Keeps-Option (some b) m f km kf = kf b

    pub Keeps-Result {μ ν} :
        {D : Type μ} {B : Type ν} (r : Result D B) (f : B → Effect (RemoteFs F T) E A)
        (g : D → Effect (RemoteFs F T) E A)
        → ((b : B) → Keeps (f b))
        → ((d : D) → Keeps (g d))
        → Keeps (match_result r f g)
    unfolding match_result
    Keeps-Result (ok b) f g kf kg = kf b
    Keeps-Result (err d) f g kf kg = kg d

  module _ {ℓ κ μ} {E : Type ℓ} {A : Type κ} {B : Type μ} where
    pub Keeps-bind :
        (m : Effect (RemoteFs F T) E A) (f : A → Effect (RemoteFs F T) E B)
        → Keeps m
        → ((a : A) → Keeps (f a))
        → Keeps (m >>= f)
    unfolding ◌>>=◌
    Keeps-bind m f km kf = record {
      kept = λ s h. elim (Result-cases (m s).0) [
        | inl (a, e) ↦ rw (e, ◌>>=◌) ((kf a).kept (m s).1 (km.kept s h))
        | inr (x, e) ↦ rw (e, ◌>>=◌) (km.kept s h)
      ];
    }

    pub Keeps-seq :
        (m : Effect (RemoteFs F T) E A) (n : Effect (RemoteFs F T) E B)
        → Keeps m
        → Keeps n
        → Keeps (m >> n)
    unfolding ◌>>◌
    Keeps-seq m n km kn = record {
      kept = λ s h. elim (Result-cases (m s).0) [
        | inl (a, e) ↦ rw (e, ◌>>◌) (kn.kept (m s).1 (km.kept s h))
        | inr (x, e) ↦ rw (e, ◌>>◌) (km.kept s h)
      ];
    }

  module _ {ℓ κ μ} {E : Type ℓ} {E' : Type κ} {A : Type μ} where
    pub Keeps-ignore : (m : Effect (RemoteFs F T) E A) → Keeps m → Keeps {E = E'} (ignore m)
    unfolding ignore
    Keeps-ignore m km = record { kept = km.kept }

    pub Keeps-attempt : (m : Effect (RemoteFs F T) E A) → Keeps m → Keeps {E = E'} (attempt m)
    unfolding attempt
    Keeps-attempt m km = record { kept = km.kept }

    pub Keeps-map_error :
        (f : E → E') (m : Effect (RemoteFs F T) E A) → Keeps m → Keeps (map_error f m)
    unfolding map_error
    Keeps-map_error f m km = record { kept = km.kept }

  -- The write-back and the remote have no table.
  pub Keeps-on_writeback {ℓ} : {A : Type ℓ} (m : Action F T A) → Keeps (on_writeback m)
  unfolding on_writeback
  Keeps-on_writeback m = record {
    kept = λ s h. record {
      inodes_left = h.inodes_left;
      handles_left = h.handles_left;
      paths = h.paths;
      handles = h.handles;
    };
  }

  pub Keeps-block_on {ℓ} : {A : Type ℓ} (m : Call T A) → Keeps (block_on {F = F} m)
  unfolding block_on
  Keeps-block_on m = record {
    kept = λ s h. record {
      inodes_left = h.inodes_left;
      handles_left = h.handles_left;
      paths = h.paths;
      handles = h.handles;
    };
  }

  pub Keeps-asks {ℓ} : {A : Type ℓ} (f : RemoteFs F T → A) → Keeps (asks f)
  unfolding asks
  Keeps-asks f = record { kept = λ s h. h }

  pub Keeps-modify :
      (f : RemoteFs F T → RemoteFs F T)
      → ((s : RemoteFs F T) → IsMount s → IsMount (f s))
      → Keeps (modify f)
  unfolding modify
  Keeps-modify f hf = record { kept = hf }

  -- The inode may stand for the path.
  abbrev pub Owns : Bytes → ℕ → RemoteFs F T → Type 0
  Owns path ino s =
      ((1 ≤ ino) × (ino < s.next_inode))
      × ((other : Bytes) → Map.lookup other s.path_to_inode ≡ some ino → other ≡ path)

  pub update_cached_attr-IsMount :
      (ino : ℕ) (attr : FileAttr) (s : RemoteFs F T)
      → IsMount s
      → IsMount (update_cached_attr ino attr s)
  unfolding update_cached_attr
  update_cached_attr-IsMount ino attr s h = record {
    inodes_left = h.inodes_left;
    handles_left = h.handles_left;
    paths = h.paths;
    handles = h.handles;
  }

  pub cache_attr-IsMount :
      (path : Bytes) (attr : FileAttr) (s : RemoteFs F T)
      → IsMount s
      → Owns path attr.ino s
      → IsMount (cache_attr path attr s)
  unfolding cache_attr update_cached_attr
  cache_attr-IsMount path attr s h owns = record {
    inodes_left = h.inodes_left;
    handles_left = h.handles_left;
    paths = insert-IsPathTable s.next_inode s.path_to_inode path attr.ino owns.0 owns.1 h.paths;
    handles = h.handles;
  }

  -- A new number is one that no path has.
  pub allocate_inode-Owns :
      (path : Bytes) (s : RemoteFs F T)
      → IsMount s
      → IsMount (allocate_inode s).1 × Owns path s.next_inode (allocate_inode s).1
  unfolding allocate_inode
  allocate_inode-Owns path s h = (
    record {
      inodes_left = omega arith;
      handles_left = h.handles_left;
      paths = later-IsPathTable s.next_inode s.path_to_inode h.paths;
      handles = h.handles;
    },
    (
      (h.inodes_left, omega arith),
      λ other found. absurd (omega (arith, (h.paths.given_out other s.next_inode found).1)),
    ),
  )

  pub Keeps-allocate_handle :
      (ino : ℕ) (path : Bytes) (kind : HandleKind) → Keeps (allocate_handle ino path kind)
  unfolding allocate_handle
  Keeps-allocate_handle ino path kind = record {
    kept = λ s h. record {
      inodes_left = h.inodes_left;
      handles_left = omega arith;
      paths = h.paths;
      handles =
          insert-IsHandleTable (s.next_handle + 1) s.open_handles s.next_handle _
            (h.handles_left, omega arith)
            (λ fh handle found.
              let (low, high) = h.handles fh handle found in (low, omega (arith, high)));
    };
  }

  -- Handles that are given out before may be removed, and put back with another path or mark.
  pub handles-IsMount :
      (s : RemoteFs F T) (open_handles : Map.Map ℕ OpenHandle)
      → IsMount s
      → IsHandleTable s.next_handle open_handles
      → IsMount (record s { open_handles = open_handles })
  handles-IsMount s open_handles h table = record {
    inodes_left = h.inodes_left;
    handles_left = h.handles_left;
    paths = h.paths;
    handles = table;
  }

  pub mark_handle_dirty-IsMount :
      (fh : ℕ) (s : RemoteFs F T) → IsMount s → IsMount (mark_handle_dirty fh s)
  unfolding mark_handle_dirty
  mark_handle_dirty-IsMount fh s h = elim (Option-cases (Map.lookup fh s.open_handles)) [
    | inl missing ↦ rw (mark_handle_dirty, missing) h
    | inr (handle, there) ↦
        rw (mark_handle_dirty, there)
          (handles-IsMount s _ h (
            insert-IsHandleTable s.next_handle s.open_handles fh _ (h.handles fh handle there)
              h.handles))
  ]

  pub release_handle-IsMount :
      (fh : ℕ) (kind : HandleKind) (s : RemoteFs F T)
      → IsMount s
      → IsMount (release_handle fh kind s).1
  unfolding release_handle
  release_handle-IsMount fh kind s h =
      let gone = remove-IsHandleTable s.next_handle s.open_handles fh h.handles in
      elim (Option-cases (Map.lookup fh s.open_handles)) [
        | inl missing ↦ rw (release_handle, missing) (handles-IsMount s _ h gone)
        | inr (handle, there) ↦ elim (Bool-cases (kind_eq handle.kind kind)) [
          | inl same ↦ rw (release_handle, there, same) (handles-IsMount s _ h gone)
          | inr other ↦
              rw (release_handle, there, other)
                (handles-IsMount s _ h
                  (insert-IsHandleTable s.next_handle _ fh handle (h.handles fh handle there) gone))
        ]
      ]

  -- What `release_handle` answers with had a number that was given out.
  pub release_handle-given_out :
      (fh : ℕ) (kind : HandleKind) (s : RemoteFs F T) (handle : OpenHandle)
      → IsMount s
      → (release_handle fh kind s).0 ≡ ok handle
      → (1 ≤ fh) × (fh < (release_handle fh kind s).1.next_handle)
  unfolding release_handle
  release_handle-given_out fh kind s handle h released =
      elim (Option-cases (Map.lookup fh s.open_handles)) [
        | inl missing ↦ absurd (let e = rw (release_handle, missing) at released in cc)
        | inr (found, there) ↦ elim (Bool-cases (kind_eq found.kind kind)) [
          | inl same ↦ rw (release_handle, there, same) (h.handles fh found there)
          | inr other ↦ absurd (let e = rw (release_handle, there, other) at released in cc)
        ]
      ]

  pub remove_cached_path-IsMount :
      (path : Bytes) (s : RemoteFs F T) → IsMount s → IsMount (remove_cached_path path s)
  unfolding remove_cached_path invalidate_directory_cache_tree
  remove_cached_path-IsMount path s h = record {
    inodes_left = h.inodes_left;
    handles_left = h.handles_left;
    paths =
        (forget_paths-IsPathTable s.next_inode (paths_at_or_below path s.path_to_inode)
          (s.path_to_inode, s.inode_map) h.paths).0;
    handles = h.handles;
  }

  pub rename_cached_path-IsMount :
      (from to : Bytes) (s : RemoteFs F T) → IsMount s → IsMount (rename_cached_path from to s)
  unfolding rename_cached_path invalidate_directory_cache_tree
  rename_cached_path-IsMount from to s h = record {
    inodes_left = h.inodes_left;
    handles_left = h.handles_left;
    paths = rename_caches-IsPathTable s.next_inode from to (s.path_to_inode, s.inode_map) h.paths;
    handles = rename_handles-IsHandleTable s.next_handle from to s.open_handles h.handles;
  }

  pub invalidate_directory_cache_for_path-IsMount :
      (path : Bytes) (s : RemoteFs F T)
      → IsMount s
      → IsMount (invalidate_directory_cache_for_path path s)
  unfolding invalidate_directory_cache_for_path
  invalidate_directory_cache_for_path-IsMount path s h = record {
    inodes_left = h.inodes_left;
    handles_left = h.handles_left;
    paths = h.paths;
    handles = h.handles;
  }

pub ruleset keeps_rules = (
  Keeps-pure, Keeps-fail, Keeps-lift, Keeps-if, Keeps-Option, Keeps-Result, Keeps-bind, Keeps-seq,
  Keeps-ignore, Keeps-attempt, Keeps-map_error, Keeps-on_writeback, Keeps-block_on, Keeps-asks,
  Keeps-modify, Keeps-allocate_handle, update_cached_attr-IsMount, mark_handle_dirty-IsMount,
  remove_cached_path-IsMount, rename_cached_path-IsMount,
  invalidate_directory_cache_for_path-IsMount,
)
