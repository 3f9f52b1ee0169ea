-- ===== src/FileSystem/Laws.antt =====
-- What the repository relies on of the file system: documented behaviour of POSIX file systems,
-- over an abstract view of a state. The view has the entry at each path (links not followed) and
-- the bytes of each file by its inode.
use remote_file_system_in_ru.Base.{
  ℕ, zero, suc, ◌+◌, length, ◌≡◌, ◌≢◌, Option, some, [], ◌∷◌, ok, err,
}
use remote_file_system_in_ru.Base.Bytes.{Bytes}
use remote_file_system_in_ru.FileSystem.{
  FileSystem, FilePath, TimeT, OpenOptions, not_found, create_new,
}

-- The entry at a path: a file by its inode, or something else.
pub data Node : Type 0 where
  file : ℕ → Node
  directory symlink special : Node

-- The bytes of a file after a write at an offset; a gap is filled with zeros.
unfoldable pub overwrite : ℕ → Bytes → Bytes → Bytes
overwrite zero [] old = old
overwrite zero (b ∷ bytes) [] = b ∷ bytes
overwrite zero (b ∷ bytes) (o ∷ old) = b ∷ overwrite zero bytes old
overwrite (suc offset) [] old = old
overwrite (suc offset) (b ∷ bytes) [] = 0 ∷ overwrite offset (b ∷ bytes) []
overwrite (suc offset) (b ∷ bytes) (o ∷ old) = o ∷ overwrite offset (b ∷ bytes) old

pub record View (F : FileSystem) : Type 0 where
  pub tree : F.State → FilePath → Option Node
  pub bytes : F.State → ℕ → Bytes
  -- The inode and the position of an open file.
  pub inode : F.File → ℕ
  pub position : F.File → ℕ

-- The entry at `p` is still there, and the file of inode `i`, unless it is `own`, has its bytes.
abbrev pub Keeps : {F : FileSystem} → View F → ℕ → FilePath → ℕ → F.State → F.State → Type 0
Keeps V own p i s t =
    ((n : Node) → V.tree s p ≡ some n → V.tree t p ≡ some n) × (i ≢ own → V.bytes t i ≡ V.bytes s i)

-- What the transaction of an upload relies on. No operation loses an entry other than the one it
-- names, and none changes the bytes of a file other than the one it writes.
pub record IsPreserving (F : FileSystem) (V : View F) : Type 0 where
  pub create_dir_all-keeps :
      (d : FilePath) (s : F.State) (own : ℕ) (p : FilePath) (i : ℕ)
      → Keeps V own p i s (F.create_dir_all d s).1
  pub remove_file-keeps :
      (a : FilePath) (s : F.State) (own : ℕ) (p : FilePath) (i : ℕ)
      → p ≢ a
      → Keeps V own p i s (F.remove_file a s).1
  pub hard_link-keeps :
      (a b : FilePath) (s : F.State) (own : ℕ) (p : FilePath) (i : ℕ)
      → Keeps V own p i s (F.hard_link a b s).1
  pub set_mode-keeps :
      (a : FilePath) (mode : ℕ) (s : F.State) (own : ℕ) (p : FilePath) (i : ℕ)
      → Keeps V own p i s (F.set_mode a mode s).1
  pub chown-keeps :
      (a : FilePath) (uid gid : Option ℕ) (s : F.State) (own : ℕ) (p : FilePath) (i : ℕ)
      → Keeps V own p i s (F.chown a uid gid s).1
  pub set_modified-keeps :
      (a : FilePath) (time : TimeT) (s : F.State) (own : ℕ) (p : FilePath) (i : ℕ)
      → Keeps V own p i s (F.set_modified a time s).1
  pub open_file-keeps :
      (options : OpenOptions) (a : FilePath) (s : F.State) (own : ℕ) (p : FilePath) (i : ℕ)
      → Keeps V own p i s (F.open_file options a s).1
  pub write_all-keeps :
      (f : F.File) (b : Bytes) (s : F.State) (p : FilePath) (i : ℕ)
      → Keeps V (V.inode f) p i s (F.write_all f b s).1
  pub write_all-inode :
      (f g : F.File) (b : Bytes) (s : F.State)
      → (F.write_all f b s).0 ≡ ok g
      → V.inode g ≡ V.inode f
  pub sync_all-keeps :
      (f : F.File) (s : F.State) (own : ℕ) (p : FilePath) (i : ℕ)
      → Keeps V own p i s (F.sync_all f s).1
  -- A file made by `create_new` is none that the tree has already.
  pub create_new-fresh :
      (a : FilePath) (s : F.State) (f : F.File) (p : FilePath) (i : ℕ)
      → (F.open_file create_new a s).0 ≡ ok f
      → V.tree s p ≡ some (file i)
      → i ≢ V.inode f
  -- Where something is, `lstat` does not say that nothing is.
  pub symlink_metadata-some :
      (p : FilePath) (s : F.State) (n : Node)
      → V.tree s p ≡ some n
      → F.symlink_metadata p s ≢ err not_found

-- A write that succeeds puts its bytes at the position of the open file and moves it behind them.
pub record IsWriting (F : FileSystem) (V : View F) : Type 0 where
  pub write_all-written :
      (f g : F.File) (b : Bytes) (s : F.State)
      → (F.write_all f b s).0 ≡ ok g
      → (V.inode g ≡ V.inode f)
        × (V.position g ≡ V.position f + length b)
        × (V.bytes (F.write_all f b s).1 (V.inode f)
            ≡ overwrite (V.position f) b (V.bytes s (V.inode f)))
