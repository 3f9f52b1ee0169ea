-- ===== src/Client/Fuse/Reachable.antt =====
-- The states that a mount can reach: the callbacks run one after the other, and between two of them
-- time passes and uploads run.
use remote_file_system_in_ru.Base.{
  ℕ, ◌≡◌, ◌↔◌, refl, sym, ap, ◌∙◌, Bool, Option, some, List, [], ◌∷◌, ◌==◌, arith, inl, inr,
  Bool-cases,
}
use remote_file_system_in_ru.Base.Bytes.{Bytes, codes, bytes_eq_instance}
use remote_file_system_in_ru.Base.Map
use remote_file_system_in_ru.Base.Map.{Map, NodupKeys}
use remote_file_system_in_ru.FileSystem.{FileSystem, SystemTime}
use remote_file_system_in_ru.Client.Api.{Transport}
use remote_file_system_in_ru.Client.Writeback.{Writeback}
use remote_file_system_in_ru.Client.Fuse.{RemoteFs, MountSettings, OsName, FileOffset, TimeOrNow}
use remote_file_system_in_ru.Client.Fuse.Tables.{find_path, path_for_inode}
use remote_file_system_in_ru.Client.Fuse.Start.{with_root}
use remote_file_system_in_ru.Client.Fuse.Ops.Handles.{
  open_file, opendir, flush, fsync, release, releasedir, destroy, create,
}
use remote_file_system_in_ru.Client.Fuse.Ops.Lookup.{lookup, getattr, readdir, Listed}
use remote_file_system_in_ru.Client.Fuse.Ops.Contents.{write, setattr, read}
use remote_file_system_in_ru.Client.Fuse.Ops.Entries.{mkdir, unlink, rmdir, rename}
use remote_file_system_in_ru.Client.Fuse.Inodes.{IsMount}
use remote_file_system_in_ru.Client.Fuse.Invariant.Callbacks.{
  open_file-Keeps, opendir-Keeps, flush-Keeps, fsync-Keeps, release-Keeps, releasedir-Keeps,
  destroy-IsMount, lookup-Keeps, getattr-Keeps, readdir-Keeps,
}
use remote_file_system_in_ru.Client.Fuse.Invariant.Changes.{
  create-Keeps, write-Keeps, setattr-Keeps, read-Keeps, mkdir-Keeps, unlink-Keeps, rmdir-Keeps,
  rename-Keeps,
}

module _ (F : FileSystem) (T : Transport) (mount : MountSettings) where
  pub data Step : RemoteFs F T → RemoteFs F T → Type 0 where
    on_open : (ino : ℕ) {s : RemoteFs F T} → Step s (open_file ino s).1
    on_opendir : (ino : ℕ) {s : RemoteFs F T} → Step s (opendir ino s).1
    on_flush : (ino fh : ℕ) {s : RemoteFs F T} → Step s (flush ino fh s).1
    on_fsync : (ino fh : ℕ) {s : RemoteFs F T} → Step s (fsync ino fh s).1
    on_release : (ino fh : ℕ) {s : RemoteFs F T} → Step s (release F T mount ino fh s).1
    on_releasedir : (ino fh : ℕ) {s : RemoteFs F T} → Step s (releasedir ino fh s).1
    on_destroy : {s : RemoteFs F T} → Step s (destroy s)
    on_lookup :
        (parent : ℕ) (name : OsName) {s : RemoteFs F T} → Step s (lookup F T mount parent name s).1
    on_getattr : (ino : ℕ) {s : RemoteFs F T} → Step s (getattr F T mount ino s).1
    on_readdir :
        (full : List Listed → Listed → Bool) (ino fh : ℕ) (offset : FileOffset) {s : RemoteFs F T}
        → Step s (readdir F T mount full ino fh offset s).1
    on_create :
        (nanos parent : ℕ) (name : OsName) (mode umask : ℕ) {s : RemoteFs F T}
        → Step s (create F T mount nanos parent name mode umask s).1
    on_write :
        (ino fh : ℕ) (offset : FileOffset) (contents : Bytes) {s : RemoteFs F T}
        → Step s (write F T mount ino fh offset contents s).1
    on_setattr :
        (now : SystemTime) (ino : ℕ) (mode uid gid size : Option ℕ) (mtime : Option TimeOrNow)
        {s : RemoteFs F T}
        → Step s (setattr F T mount now ino mode uid gid size mtime s).1
    on_read :
        (ino fh : ℕ) (offset : FileOffset) (size : ℕ) {s : RemoteFs F T}
        → Step s (read F T mount ino fh offset size s).1
    on_mkdir :
        (parent : ℕ) (name : OsName) (mode umask : ℕ) {s : RemoteFs F T}
        → Step s (mkdir F T mount parent name mode umask s).1
    on_unlink :
        (parent : ℕ) (name : OsName) {s : RemoteFs F T} → Step s (unlink F T mount parent name s).1
    on_rmdir :
        (parent : ℕ) (name : OsName) {s : RemoteFs F T} → Step s (rmdir F T mount parent name s).1
    on_rename :
        (parent : ℕ) (name : OsName) (newparent : ℕ) (newname : OsName) (flags : ℕ)
        {s : RemoteFs F T}
        → Step s (rename F T mount parent name newparent newname flags s).1
    -- What happens between the callbacks.
    time_passes : (clock : ℕ) {s : RemoteFs F T} → Step s (record s { clock = clock })
    uploads_run :
        (writeback : Writeback F T) {s : RemoteFs F T} → Step s (record s { writeback = writeback })

  pub data Reachable : RemoteFs F T → Type 0 where
    started :
        (now : SystemTime) (clock : ℕ) (writeback : Writeback F T)
        → Reachable (with_root F T mount now clock writeback)
    stepped : {s t : RemoteFs F T} → Reachable s → Step s t → Reachable t

  step-IsMount : {s t : RemoteFs F T} → Step s t → IsMount s → IsMount t
  step-IsMount (Step.on_open ino) h = (open_file-Keeps ino).kept _ h
  step-IsMount (Step.on_opendir ino) h = (opendir-Keeps ino).kept _ h
  step-IsMount (Step.on_flush ino fh) h = (flush-Keeps ino fh).kept _ h
  step-IsMount (Step.on_fsync ino fh) h = (fsync-Keeps ino fh).kept _ h
  step-IsMount (Step.on_release ino fh) h = (release-Keeps F T mount ino fh).kept _ h
  step-IsMount (Step.on_releasedir ino fh) h = (releasedir-Keeps ino fh).kept _ h
  step-IsMount Step.on_destroy h = destroy-IsMount _ h
  step-IsMount (Step.on_lookup parent name) h = (lookup-Keeps F T mount parent name).kept _ h
  step-IsMount (Step.on_getattr ino) h = (getattr-Keeps F T mount ino).kept _ h
  step-IsMount (Step.on_readdir full ino fh offset) h =
      (readdir-Keeps F T mount full ino fh offset).kept _ h
  step-IsMount (Step.on_create nanos parent name mode umask) h =
      (create-Keeps F T mount nanos parent name mode umask).kept _ h
  step-IsMount (Step.on_write ino fh offset contents) h =
      (write-Keeps F T mount ino fh offset contents).kept _ h
  step-IsMount (Step.on_setattr now ino mode uid gid size mtime) h =
      (setattr-Keeps F T mount now ino mode uid gid size mtime).kept _ h
  step-IsMount (Step.on_read ino fh offset size) h =
      (read-Keeps F T mount ino fh offset size).kept _ h
  step-IsMount (Step.on_mkdir parent name mode umask) h =
      (mkdir-Keeps F T mount parent name mode umask).kept _ h
  step-IsMount (Step.on_unlink parent name) h = (unlink-Keeps F T mount parent name).kept _ h
  step-IsMount (Step.on_rmdir parent name) h = (rmdir-Keeps F T mount parent name).kept _ h
  step-IsMount (Step.on_rename parent name newparent newname flags) h =
      (rename-Keeps F T mount parent name newparent newname flags).kept _ h
  step-IsMount (Step.time_passes clock) h = record {
    inodes_left = h.inodes_left;
    handles_left = h.handles_left;
    paths = h.paths;
    handles = h.handles;
  }
  step-IsMount (Step.uploads_run writeback) h = record {
    inodes_left = h.inodes_left;
    handles_left = h.handles_left;
    paths = h.paths;
    handles = h.handles;
  }

  root_only :
      (path : Bytes) (ino : ℕ)
      → Map.lookup path ((codes "/", 1) ∷ []) ≡ some ino
      → (codes "/" ≡ path) × (1 ≡ ino)
  unfolding Map.lookup
  root_only path ino found = elim (Bool-cases (bytes_eq_instance.beq (codes "/") path)) [
    | inl same ↦ ((bytes_eq_instance.beq_iff _ _).0 same, ground arith)
    | inr other ↦ absurd (ground arith)
  ]

  with_root-IsMount :
      (now : SystemTime) (clock : ℕ) (writeback : Writeback F T)
      → IsMount (with_root F T mount now clock writeback)
  unfolding with_root Map.lookup
  with_root-IsMount now clock writeback = record {
    inodes_left = omega arith;
    handles_left = omega arith;
    paths = record {
      keys = (refl, tt);
      given_out = λ path ino found.
          let e = (root_only path ino found).1 in (omega (arith, e), omega (arith, e));
      distinct = λ path other ino found again.
          sym (root_only path ino found).0 ∙ (root_only other ino again).0;
    };
    handles = λ fh handle found. absurd (ground arith);
  }

  -- In every state that the mount reaches by its callbacks, with time passing and uploads running
  -- between them, no two paths share an inode, every inode and every handle in use is at least 1
  -- and was given out before, and so the next of each is new.
  pub Reachable-IsMount : (s : RemoteFs F T) → Reachable s → IsMount s
  Reachable-IsMount s (started now clock writeback) = with_root-IsMount now clock writeback
  Reachable-IsMount s (stepped reached step) = step-IsMount step (Reachable-IsMount _ reached)

find_path_sound :
    (ino : ℕ) (path : Bytes) (paths : Map Bytes ℕ)
    → NodupKeys paths
    → find_path ino paths ≡ some path
    → Map.lookup path paths ≡ some ino
unfolding find_path Map.lookup
find_path_sound ino path [] h found = absurd (ground arith)
find_path_sound ino path ((other, inode) ∷ paths) h found = elim (Bool-cases (inode == ino)) [
  | inl same ↦
      let e : other ≡ path = ground arith in
      rw ((bytes_eq_instance.beq_iff other path).1 e) (ground arith)
  | inr different ↦
      let rest = find_path_sound ino path paths h.1 (rw different at found) in
      elim (Bool-cases (bytes_eq_instance.beq other path)) [
        | inl same ↦
            absurd
              (let e = rw ((bytes_eq_instance.beq_iff other path).0 same) at h.0 in ground arith)
        | inr apart ↦ rw apart rest
      ]
]

find_path_complete :
    (ino : ℕ) (path : Bytes) (paths : Map Bytes ℕ)
    → Map.lookup path paths ≡ some ino
    → (found : Bytes) × (find_path ino paths ≡ some found)
unfolding find_path Map.lookup
find_path_complete ino path [] there = absurd (ground arith)
find_path_complete ino path ((other, inode) ∷ paths) there = elim (Bool-cases (inode == ino)) [
  | inl same ↦ (other, rw same)
  | inr different ↦ elim (Bool-cases (bytes_eq_instance.beq other path)) [
    | inl same ↦ absurd (let e = rw same at there in ground arith)
    | inr apart ↦
        (let (found, e) = find_path_complete ino path paths (rw apart at there) in
          (found, rw different e))
  ]
]

-- In every state that the mount reaches, the path that is found for an inode is the one that has
-- that inode, and every path that has an inode is found for it, in whatever order the table is read.
pub path_for_inode_iff :
    (F : FileSystem) (T : Transport) (mount : MountSettings) (s : RemoteFs F T) (ino : ℕ)
    (path : Bytes)
    → Reachable F T mount s
    → (path_for_inode ino s ≡ some path) ↔ (Map.lookup path s.path_to_inode ≡ some ino)
unfolding path_for_inode
path_for_inode_iff F T mount s ino path reached =
    let table = (Reachable-IsMount F T mount s reached).paths in
    (
      find_path_sound ino path s.path_to_inode table.keys,
      λ there.
          let (found, e) = find_path_complete ino path s.path_to_inode there in
          e
          ∙ ap some (
              table.distinct found path ino (find_path_sound ino found s.path_to_inode table.keys e)
                there),
    )
