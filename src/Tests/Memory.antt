-- ===== src/Tests/Memory.antt =====
-- A file system in memory, which shows that the interface and its laws can hold together. A
-- directory is an entry like any other, and directories need not be made before their files.
use remote_file_system_in_ru.Base.{
  Option, List, ℕ, suc, ◌+◌, none, some, [], ◌∷◌, ◌==◌, length, take, drop, replicate, ◌-◌, ◌++◌,
  if◌then◌else◌, Result, ok, err,
}
use remote_file_system_in_ru.Base.Bytes.{Bytes, bytes_eq}
use remote_file_system_in_ru.Base.Equality.{Eq}
use remote_file_system_in_ru.Base.Map
use remote_file_system_in_ru.Base.Map.{Map}
use remote_file_system_in_ru.FileSystem.{
  FileSystem, FilePath, ErrorKind, FileType, since_epoch, Metadata, OpenOptions, not_found,
  already_exists, read, read_write, create, create_new,
}
use remote_file_system_in_ru.FileSystem.Laws.{Node, file, directory, symlink, special, overwrite}
use remote_file_system_in_ru.Server.Handlers.{path_eq, starts_with}
use remote_file_system_in_ru.Server.Handlers.Paths.{path_eq_iff}

instance unfoldable pub path_eq_instance : Eq FilePath
unfolding path_eq
path_eq_instance = record { beq = path_eq; beq_iff = path_eq_iff }

pub record Disk : Type 0 where
  pub entries : Map FilePath Node
  pub contents : ℕ → Bytes

pub record OpenFile : Type 0 where
  pub file_inode : ℕ
  pub file_position : ℕ

-- A number above the inodes of a tree.
unfoldable pub fresh : Map FilePath Node → ℕ
fresh [] = 0
fresh ((p, file i) ∷ m) = suc (i + fresh m)
fresh ((p, directory) ∷ m) = fresh m
fresh ((p, symlink) ∷ m) = fresh m
fresh ((p, special) ∷ m) = fresh m

unfoldable pub type_of : Node → FileType
type_of (file i) = FileType.file
type_of directory = FileType.directory
type_of symlink = FileType.symlink
type_of special = FileType.special

unfoldable pub len_of : Disk → Node → ℕ
len_of s (file i) = length (s.contents i)
len_of s directory = 0
len_of s symlink = 0
len_of s special = 0

unfoldable pub stat : FilePath → Disk → Result ErrorKind Metadata
unfolding Map.lookup type_of len_of
stat p s = elim (Map.lookup p s.entries) [
  | none ↦ err not_found
  | some n ↦ ok (record {
    file_type = type_of n;
    len = len_of s n;
    modified = some (since_epoch 7 0);
    mode = 33188;
    uid = 0;
    gid = 0;
  })
]

abbrev set_contents : ℕ → Bytes → Disk → Disk
set_contents i b s = record s { contents = λ j. if j == i then b else s.contents j }

abbrev link : FilePath → Node → Disk → Disk
link p n s = record s { entries = Map.insert p n s.entries }

-- A new entry is made only where none is.
unfoldable pub add : {A : Type 0} → FilePath → Node → A → Disk → Result ErrorKind A × Disk
unfolding Map.lookup Map.insert
add p n a s = elim (Map.lookup p s.entries) [
  | none ↦ (ok a, link p n s)
  | some _ ↦ (err already_exists, s)
]

abbrev at_start : ℕ → OpenFile
at_start i = record { file_inode = i; file_position = 0 }

unfoldable pub open_existing : FilePath → Disk → Result ErrorKind OpenFile × Disk
unfolding Map.lookup
open_existing p s = elim (Map.lookup p s.entries) [
  | none ↦ (err not_found, s)
  | some n ↦ elim n [
    | file i ↦ (ok (at_start i), s)
    | directory ↦ (ok (at_start 0), s)
    | symlink ↦ (err ErrorKind.other, s)
    | special ↦ (err ErrorKind.other, s)
  ]
]

unfoldable pub open_file : OpenOptions → FilePath → Disk → Result ErrorKind OpenFile × Disk
unfolding open_existing add fresh
open_file read p s = open_existing p s
open_file read_write p s = open_existing p s
open_file create_new p s = add p (file (fresh s.entries)) (at_start (fresh s.entries)) s
open_file create p s = elim (Map.lookup p s.entries) [
  | none ↦ add p (file (fresh s.entries)) (at_start (fresh s.entries)) s
  | some _ ↦ open_existing p s
]

unfoldable pub hard_link : FilePath → FilePath → Disk → Result ErrorKind (Unit {0}) × Disk
unfolding add
hard_link a b s = elim (Map.lookup a s.entries) [
  | none ↦ (err not_found, s)
  | some n ↦ add b n tt s
]

unfoldable pub read_file : FilePath → Disk → Result ErrorKind Bytes
unfolding Map.lookup
read_file p s = elim (Map.lookup p s.entries) [
  | none ↦ err not_found
  | some n ↦ elim n [
    | file i ↦ ok (s.contents i)
    | directory ↦ err ErrorKind.is_a_directory
    | symlink ↦ err ErrorKind.other
    | special ↦ err ErrorKind.other
  ]
]

-- A copy over an entry that is there writes to that file.
unfoldable pub copy_to : FilePath → Bytes → Disk → Result ErrorKind (Unit {0}) × Disk
unfolding Map.lookup Map.insert fresh
copy_to p b s = elim (Map.lookup p s.entries) [
  | none ↦ (ok tt, set_contents (fresh s.entries) b (link p (file (fresh s.entries)) s))
  | some n ↦ elim n [
    | file i ↦ (ok tt, set_contents i b s)
    | directory ↦ (err ErrorKind.is_a_directory, s)
    | symlink ↦ (err ErrorKind.other, s)
    | special ↦ (err ErrorKind.other, s)
  ]
]

unfoldable pub copy : FilePath → FilePath → Disk → Result ErrorKind (Unit {0}) × Disk
unfolding read_file copy_to
copy a b s = elim (read_file a s) [ err error ↦ (err error, s) | ok bytes ↦ copy_to b bytes s ]

-- The name of an entry directly below a directory.
unfoldable pub name_below : FilePath → FilePath → Option Bytes
unfolding bytes_eq
name_below [] (name ∷ []) = some name
name_below [] other = none
name_below (d ∷ base) [] = none
name_below (d ∷ base) (c ∷ path) =
    let below = name_below base path in if bytes_eq d c then below else none

unfoldable pub names_below : FilePath → Map FilePath Node → List Bytes
unfolding name_below
names_below base [] = []
names_below base ((p, n) ∷ m) = elim (name_below base p) [
  | none ↦ names_below base m
  | some name ↦ name ∷ names_below base m
]

-- The entries that are neither a directory nor below it.
unfoldable pub outside : FilePath → Map FilePath Node → Map FilePath Node
unfolding starts_with
outside base [] = []
outside base ((p, n) ∷ m) =
    let rest = outside base m in if starts_with p base then rest else (p, n) ∷ rest

abbrev set_length : ℕ → Bytes → Bytes
set_length n old = take n old ++ replicate (n - length old) 0

unfoldable pub memory : FileSystem
unfolding stat add open_file hard_link overwrite Map.remove read_file copy names_below outside
memory = record {
  State = Disk;
  File = OpenFile;
  metadata = stat;
  symlink_metadata = stat;
  read_dir = λ p s. ok (names_below p s.entries);
  create_dir = λ p s. add p directory tt s;
  create_dir_all = λ p s. (ok tt, s);
  remove_file = λ p s. (ok tt, record s { entries = Map.remove p s.entries });
  remove_dir = λ p s. (ok tt, record s { entries = Map.remove p s.entries });
  rename = λ a b s. elim (Map.lookup a s.entries) [
    | none ↦ (err not_found, s)
    | some n ↦ (ok tt, record s { entries = Map.insert b n (Map.remove a s.entries) })
  ];
  hard_link = hard_link;
  set_mode = λ p mode s. (ok tt, s);
  chown = λ p uid gid s. (ok tt, s);
  set_modified = λ p time s. (ok tt, s);
  open_file = open_file;
  seek = λ f position s. (ok (record f { file_position = position }), s);
  write_all = λ f b s. (
    ok (record f { file_position = f.file_position + length b }),
    set_contents f.file_inode (overwrite f.file_position b (s.contents f.file_inode)) s,
  );
  read_at_most = λ f n s. ok (take n (drop f.file_position (s.contents f.file_inode)));
  read_exact = λ f n s.
      let piece = take n (drop f.file_position (s.contents f.file_inode)) in
      if length piece == n
      then ok (piece, record f { file_position = f.file_position + n })
      else err ErrorKind.other;
  set_len = λ f n s. (ok tt, set_contents f.file_inode (set_length n (s.contents f.file_inode)) s);
  read_file = read_file;
  copy = copy;
  remove_dir_all = λ p s. (ok tt, record s { entries = outside p s.entries });
  try_lock = λ f s. (ok tt, s);
  sync_all = λ f s. (ok tt, s);
}
