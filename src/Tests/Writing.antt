-- ===== src/Tests/Writing.antt =====
-- A body of three chunks through a buffer of four bytes.
use mathlib.Core.Option
use remote_file_system_in_ru.Base.{is_ok, true, ◌≡◌, refl, some, [], ◌∷◌, ok}
use remote_file_system_in_ru.Base.Bytes.{Bytes, codes}
use remote_file_system_in_ru.FileSystem.Laws.{overwrite}
use remote_file_system_in_ru.Server.Storage.{◌>>=◌, pure, io}
use remote_file_system_in_ru.Server.Transaction.{Chunks}
use remote_file_system_in_ru.Server.WriteFile.{receive_chunks, drain}
use remote_file_system_in_ru.Server.WriteFile.Buffer.{body_of, receive_chunks-drain}
use remote_file_system_in_ru.Server.WriteFile.Total.{receive_chunks-drain_total}
use remote_file_system_in_ru.Tests.Memory.{memory}
use remote_file_system_in_ru.Tests.Lawful.{memory_view, memory-IsWriting}
use remote_file_system_in_ru.Tests.Examples.{world}

unfoldable opened : memory.File
unfolding memory
opened = record { file_inode = 0; file_position = 1 }

unfoldable closed : memory.File
unfolding memory
closed = record { file_inode = 0; file_position = 11 }

abbrev three : Chunks
three = some (codes "abc") ∷ some (codes "de") ∷ some (codes "fghij") ∷ []

drained :
    ((receive_chunks memory 4 three (record { file = opened; write_buffer = []; bytes_written = 0 })
        >>= drain memory)
      world).0
    ≡ ok closed
unfolding memory opened closed receive_chunks drain world ◌>>=◌ pure io
drained = refl

receive_chunks-drain_example :
    let run =
      (receive_chunks memory 4 three
            (record { file = opened; write_buffer = []; bytes_written = 0 })
          >>= drain memory)
        world in
    (body : Bytes) × (body_of three ≡ some body)
    × (memory_view.inode closed ≡ memory_view.inode opened)
    × (memory_view.bytes run.1.disk (memory_view.inode closed)
        ≡ overwrite
            (memory_view.position opened)
            body
            (memory_view.bytes world.disk (memory_view.inode opened)))
receive_chunks-drain_example =
    receive_chunks-drain memory memory_view memory-IsWriting 4 three opened closed world drained

writes : (f : memory.File) (b : Bytes) (s : memory.State) → is_ok (memory.write_all f b s).0 ≡ true
unfolding memory
writes f b s = refl

whole : body_of three ≡ some (codes "abcdefghij")
unfolding body_of Option.map
whole = refl

receive_chunks-drain_total_example :
    let run =
      (receive_chunks memory 4 three
            (record { file = opened; write_buffer = []; bytes_written = 0 })
          >>= drain memory)
        world in
    (g : memory.File) × (run.0 ≡ ok g)
    × (memory_view.inode g ≡ memory_view.inode opened)
    × (memory_view.bytes run.1.disk (memory_view.inode g)
        ≡ overwrite
            (memory_view.position opened)
            (codes "abcdefghij")
            (memory_view.bytes world.disk (memory_view.inode opened)))
receive_chunks-drain_total_example =
    receive_chunks-drain_total memory memory_view memory-IsWriting writes 4 three
      (codes "abcdefghij") opened world whole
