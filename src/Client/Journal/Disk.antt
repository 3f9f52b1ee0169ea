-- ===== src/Client/Journal/Disk.antt =====
-- What the journal does on the disk: markers, syncs, the creation of an entry's directory, and the
-- choice of a generation when an entry is loaded.
use mathlib.Core.Option
use remote_file_system_in_ru.Base.{
  ℕ, max, Bool, not, false, Option, none, some, List, [], ◌∷◌, ◌==◌, ok, err, is_some_and,
  if◌then◌else◌,
}
use remote_file_system_in_ru.Base.Bytes.{Bytes}
use remote_file_system_in_ru.Base.Effect.{◌>>=◌, ◌>>◌, pure, ignore}
use remote_file_system_in_ru.FileSystem.{FilePath, FileSystem, OpenOptions, is_file}
use remote_file_system_in_ru.Text.Radix.{format}
use remote_file_system_in_ru.Client.Journal.{OnDisk, io, look}
use remote_file_system_in_ru.Client.Journal.Names.{
  path_join, data_path, commit_path, parse_commit_generation, parse_data_generation,
}

-- `Iterator::max`.
unfoldable pub maximum : List ℕ → Option ℕ
maximum [] = none
maximum (n ∷ ns) = some (Option.get_or (Option.map (max n) (maximum ns)) n)

-- `generation != current_generation`, of a name that has a generation.
unfoldable pub is_noncurrent : ℕ → Bytes → Bool
is_noncurrent current_generation name =
    is_some_and (Option.or_else (parse_data_generation name) (parse_commit_generation name))
      (λ generation. not (generation == current_generation))

module _ (F : FileSystem) where
  unfoldable pub sync_directory : FilePath → OnDisk F (Unit {0})
  sync_directory path = do
    directory ← io F (F.open_file OpenOptions.read path)
    io F (F.sync_all directory)

  unfoldable pub create_commit_marker : FilePath → ℕ → OnDisk F (Unit {0})
  unfolding sync_directory
  create_commit_marker directory generation = do
    marker ← io F (F.open_file OpenOptions.create_new (commit_path directory generation))
    written ← io F (F.write_all marker (format 10 generation))
    io F (F.sync_all written)
    sync_directory directory

  -- `data_path(directory, generation).is_file()`.
  unfoldable pub has_data : FilePath → F.State → ℕ → Bool
  has_data directory s generation = elim (F.metadata (data_path directory generation) s) [
    | err _ ↦ false
    | ok metadata ↦ is_file metadata
  ]

  -- The generations that the names of the directory commit, and for which there is data.
  unfoldable pub committed_in : FilePath → F.State → List Bytes → List ℕ
  unfolding has_data
  committed_in directory s [] = []
  committed_in directory s (name ∷ names) =
      let rest = committed_in directory s names in
      elim (parse_commit_generation name) [
        | none ↦ rest
        | some generation ↦ if has_data directory s generation then generation ∷ rest else rest
      ]

  unfoldable pub committed_generations : FilePath → F.State → List Bytes → List ℕ
  unfolding committed_in has_data
  committed_generations directory s names =
      let rest = committed_in directory s names in if has_data directory s 0 then 0 ∷ rest else rest

  unfoldable pub remove_noncurrent : FilePath → ℕ → List Bytes → OnDisk F (Unit {0})
  remove_noncurrent directory current_generation [] = pure tt
  remove_noncurrent directory current_generation (name ∷ names) =
      let rest = remove_noncurrent directory current_generation names in
      if is_noncurrent current_generation name
      then (do ignore (io F (F.remove_file (path_join directory name))); rest)
      else rest

  unfoldable pub remove_noncurrent_versions : FilePath → ℕ → OnDisk F (Unit {0})
  unfolding remove_noncurrent sync_directory
  remove_noncurrent_versions directory current_generation = do
    names ← look F (F.read_dir directory)
    remove_noncurrent directory current_generation names
    sync_directory directory
