-- ===== src/Tests/Lawful.antt =====
-- The file system in memory has the laws that the theorems ask for.
use remote_file_system_in_ru.Base.{
  ℕ, ◌==◌, if◌then◌else◌, ◌<◌, ◌≡◌, ◌≢◌, refl, inl, inr, some, [], ◌∷◌, arith, ok, err,
  ok-injective, Option-cases,
}
use mathlib.Core.Path.{sym, ap}
use remote_file_system_in_ru.Base.Bytes.{Bytes}
use remote_file_system_in_ru.Base.Map
use remote_file_system_in_ru.Base.Map.{Map}
use remote_file_system_in_ru.FileSystem.{
  FilePath, OpenOptions, not_found, read, read_write, create, create_new,
}
use remote_file_system_in_ru.FileSystem.Laws.{
  Node, file, directory, symlink, special, View, IsWriting, IsPreserving,
}
use remote_file_system_in_ru.Server.Handlers.Paths.{path_eq_iff}
use remote_file_system_in_ru.Tests.Memory.{
  path_eq_instance, Disk, OpenFile, fresh, stat, add, open_existing, open_file, hard_link, memory,
}

unfoldable pub memory_view : View memory
unfolding memory Map.lookup
memory_view = record {
  tree = λ s p. Map.lookup p s.entries;
  bytes = λ s i. s.contents i;
  inode = λ f. f.file_inode;
  position = λ f. f.file_position;
}

-- An operation that changes no bytes and no entry but one that it makes.
KeepsDisk : FilePath → Disk → Disk → Type 0
KeepsDisk p s t =
    ((n : Node) → Map.lookup p s.entries ≡ some n → Map.lookup p t.entries ≡ some n)
    × ((i : ℕ) → t.contents i ≡ s.contents i)

add-KeepsDisk :
    {A : Type 0} (q : FilePath) (n : Node) (a : A) (s : Disk) (p : FilePath)
    → KeepsDisk p s (add q n a s).1
unfolding add KeepsDisk path_eq_instance
add-KeepsDisk q n a s p = elim (Option-cases (Map.lookup q s.entries)) [
  | inr (m, e) ↦ rw (e, add) (λ n h. h, λ i. refl)
  | inl e ↦
      rw (e, add)
        (λ m h. ground (arith, Map.lookup-insert q p n s.entries, path_eq_iff q p), λ i. refl)
]

open_existing-same : (q : FilePath) (s : Disk) → (open_existing q s).1 ≡ s
unfolding open_existing
open_existing-same q s = elim (Option-cases (Map.lookup q s.entries)) [
  | inl e ↦ rw (e, open_existing) refl
  | inr (file i, e) ↦ rw (e, open_existing) refl
  | inr (directory, e) ↦ rw (e, open_existing) refl
  | inr (symlink, e) ↦ rw (e, open_existing) refl
  | inr (special, e) ↦ rw (e, open_existing) refl
]

same-KeepsDisk : (p : FilePath) (s t : Disk) → t ≡ s → KeepsDisk p s t
unfolding KeepsDisk
same-KeepsDisk p s t h = rw h (λ n e. e, λ i. refl)

open_file-KeepsDisk :
    (options : OpenOptions) (q : FilePath) (s : Disk) (p : FilePath)
    → KeepsDisk p s (open_file options q s).1
unfolding open_file
open_file-KeepsDisk read q s p = same-KeepsDisk p s _ (open_existing-same q s)
open_file-KeepsDisk read_write q s p = same-KeepsDisk p s _ (open_existing-same q s)
open_file-KeepsDisk create_new q s p = add-KeepsDisk q _ _ s p
open_file-KeepsDisk create q s p = elim (Option-cases (Map.lookup q s.entries)) [
  | inl e ↦ rw (e, open_file) (add-KeepsDisk q _ _ s p)
  | inr (n, e) ↦ rw (e, open_file) (same-KeepsDisk p s _ (open_existing-same q s))
]

hard_link-KeepsDisk : (a b : FilePath) (s : Disk) (p : FilePath) → KeepsDisk p s (hard_link a b s).1
unfolding hard_link
hard_link-KeepsDisk a b s p = elim (Option-cases (Map.lookup a s.entries)) [
  | inl e ↦ rw (e, hard_link) (same-KeepsDisk p s s refl)
  | inr (n, e) ↦ rw (e, hard_link) (add-KeepsDisk b n tt s p)
]

fresh-above :
    (m : Map FilePath Node) (p : FilePath) (i : ℕ) → Map.lookup p m ≡ some (file i) → i < fresh m
unfolding Map.lookup fresh path_eq_instance
fresh-above [] p i h = absurd (cc h)
fresh-above ((q, file j) ∷ m) p i h = ground (arith, fresh-above m p i)
fresh-above ((q, directory) ∷ m) p i h = ground (arith, fresh-above m p i)
fresh-above ((q, symlink) ∷ m) p i h = ground (arith, fresh-above m p i)
fresh-above ((q, special) ∷ m) p i h = ground (arith, fresh-above m p i)

add-fresh :
    (a : FilePath) (s : Disk) (f : OpenFile) (p : FilePath) (i : ℕ)
    → (open_file create_new a s).0 ≡ ok f
    → Map.lookup p s.entries ≡ some (file i)
    → i ≢ f.file_inode
unfolding open_file add
add-fresh a s f p i e h same = elim (Option-cases (Map.lookup a s.entries)) [
  | inl m ↦
      let named : fresh s.entries ≡ f.file_inode =
        ap (λ g. g.file_inode) (ok-injective (rw (m, add) at e)) in
      let above = fresh-above s.entries p i h in omega arith
  | inr (n, m) ↦ absurd (cc (rw (m, add) at e))
]

stat-some :
    (p : FilePath) (s : Disk) (n : Node)
    → Map.lookup p s.entries ≡ some n
    → stat p s ≢ err not_found
unfolding stat
stat-some p s n h e = cc (rw (h, stat) at e)

pub memory-IsPreserving : IsPreserving memory memory_view
unfolding memory memory_view KeepsDisk path_eq_instance
memory-IsPreserving = record {
  create_dir_all-keeps = λ d s own p i. (λ n h. h, λ _. refl);
  remove_file-keeps = λ a s own p i ne.
      (λ n h. ground (arith, Map.lookup-remove a p s.entries, path_eq_iff a p), λ _. refl);
  hard_link-keeps = λ a b s own p i. let k = hard_link-KeepsDisk a b s p in (k.0, λ _. k.1 i);
  set_mode-keeps = λ a mode s own p i. (λ n h. h, λ _. refl);
  chown-keeps = λ a uid gid s own p i. (λ n h. h, λ _. refl);
  set_modified-keeps = λ a time s own p i. (λ n h. h, λ _. refl);
  open_file-keeps =
      λ options a s own p i. let k = open_file-KeepsDisk options a s p in (k.0, λ _. k.1 i);
  write_all-keeps = λ f b s p i. (λ n h. h, λ ne. ground arith);
  write_all-inode = λ f g b s e. ap (λ f. f.file_inode) (sym (ok-injective e));
  sync_all-keeps = λ f s own p i. (λ n h. h, λ _. refl);
  create_new-fresh = λ a s f p i e h. λ same. add-fresh a s f p i e h same;
  symlink_metadata-some = λ p s n h e. stat-some p s n h e;
}

written_here : (i : ℕ) (b c : Bytes) → (if i == i then b else c) ≡ b
written_here i b c = ground arith

pub memory-IsWriting : IsWriting memory memory_view
unfolding memory memory_view
memory-IsWriting = record {
  write_all-written =
      λ f g b s e. rw (← ok-injective e) (refl, refl, written_here f.file_inode _ _);
}
