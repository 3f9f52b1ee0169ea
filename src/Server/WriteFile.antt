-- ===== src/Server/WriteFile.antt =====
-- `write_file` of `server/src/handlers.rs`: create-only uploads go to the transaction; any other
-- request resizes the file or writes the body at an offset, through a buffer.
pub mod Overwrite
pub mod Buffer
pub mod Total
use remote_file_system_in_ru.Base.{
  ℕ, ◌+◌, Bool, true, false, not, ◌&&◌, ◌||◌, Option, none, some, [], ◌∷◌, ◌++◌, ltb, leb, ◌==◌,
  length, is_some, is_some_and, if◌then◌else◌,
}
use mathlib.Core.Option
use remote_file_system_in_ru.Base.Bytes.{Bytes, bytes_eq, codes}
use remote_file_system_in_ru.FileSystem.{FilePath, FileSystem, OpenOptions}
use remote_file_system_in_ru.Protocol.{file_offset, file_truncate}
use remote_file_system_in_ru.Server.Error.{bad_request, request_body}
use remote_file_system_in_ru.Server.Http.{Headers, StatusCode}
use remote_file_system_in_ru.Server.Metadata.{
  parse_optional_u64_header, entry_metadata_for_path, apply_metadata_headers,
}
use remote_file_system_in_ru.Server.Handlers.{resolve, create_parent, respond}
use remote_file_system_in_ru.Server.Transaction.{Chunks, create_file_atomically}
use remote_file_system_in_ru.Server.Storage.{
  AppState, Handler, Response, Body, ◌>>=◌, ◌>>◌, pure, fail, lift, io,
}

-- `TRANSFER_BUFFER_SIZE`, 4 MiB.
abbrev pub transfer_buffer_size : ℕ
transfer_buffer_size = 4194304

abbrev pub is_empty : Bytes → Bool
is_empty [] = true
is_empty (c ∷ s) = false

-- What the loop keeps: the file, the write buffer and `bytes_written`.
pub record Receiving (F : FileSystem) : Type 0 where
  pub file : F.File
  pub write_buffer : Bytes
  pub bytes_written : ℕ

module _ (F : FileSystem) where
  unfoldable pub write_block : F.File → Bytes → Handler F F.File
  write_block file bytes = io "Could not write file" (F.write_all file bytes)

  -- The buffer is written first if the chunk does not fit beside it.
  unfoldable pub make_room : ℕ → Receiving F → Bytes → Handler F (Receiving F)
  unfolding write_block
  make_room size state chunk =
      if ltb size (length state.write_buffer + length chunk) && not (is_empty state.write_buffer)
      then (do
        file ← write_block state.file state.write_buffer
        pure (record state { file = file; write_buffer = [] }))
      else pure state

  -- A chunk as large as the buffer is written at once; a smaller one waits.
  unfoldable pub store_chunk : ℕ → Receiving F → Bytes → Handler F (Receiving F)
  unfolding write_block
  store_chunk size state chunk =
      if leb size (length chunk)
      then (do file ← write_block state.file chunk; pure (record state { file = file }))
      else pure (record state { write_buffer = state.write_buffer ++ chunk })

  -- The loop over the chunks, for a buffer of the given size.
  unfoldable pub receive_chunks : ℕ → Chunks → Receiving F → Handler F (Receiving F)
  unfolding make_room store_chunk
  receive_chunks size [] state = pure state
  receive_chunks size (none ∷ chunks) state = fail (request_body "Could not read request body")
  receive_chunks size (some chunk ∷ chunks) state = do
    roomy ←
        make_room size (record state { bytes_written = state.bytes_written + length chunk }) chunk
    stored ← store_chunk size roomy chunk
    receive_chunks size chunks stored

  -- What is left in the buffer is written after the loop.
  unfoldable pub drain : Receiving F → Handler F F.File
  unfolding write_block
  drain state =
      if is_empty state.write_buffer
      then pure state.file
      else write_block state.file state.write_buffer

  module _ (H : Headers) where
    -- The common end: metadata headers, `sync_all`, and the metadata of the file as the answer.
    unfoldable pub finish_write : FilePath → F.File → H.HeaderMap → Handler F Response
    finish_write file_path file headers = do
      apply_metadata_headers F H file_path headers
      io "Could not flush file" (F.sync_all file)
      metadata ← entry_metadata_for_path F file_path
      respond StatusCode.ok (Body.json_metadata metadata)

    unfoldable pub resize_to : FilePath → F.File → H.HeaderMap → ℕ → Handler F Response
    unfolding finish_write
    resize_to file_path file headers size = do
      io "Could not resize file" (F.set_len file size)
      finish_write file_path file headers

    unfoldable pub write_body :
        ℕ → FilePath → F.File → H.HeaderMap → ℕ → Chunks → Handler F Response
    unfolding receive_chunks drain finish_write
    write_body size file_path opened headers offset chunks = do
      placed ← io "Could not seek file" (F.seek opened offset)
      received ←
          receive_chunks size chunks
            (record { file = placed; write_buffer = []; bytes_written = 0 })
      file ← drain received
      if offset == 0 && received.bytes_written == 0
          then (do
            io "Could not truncate file" (F.set_len file 0)
            finish_write file_path file headers)
          else finish_write file_path file headers

    unfoldable pub write_at_path :
        FilePath → H.HeaderMap → ℕ → Option ℕ → Chunks → Handler F Response
    unfolding resize_to write_body
    write_at_path file_path headers offset truncate_size chunks = do
      create_parent F file_path
      file ← io "Could not open file" (F.open_file OpenOptions.create file_path)
      elim truncate_size [
        | some size ↦ resize_to file_path file headers size
        | none ↦ write_body transfer_buffer_size file_path file headers offset chunks
      ]

    -- `If-None-Match: *`.
    abbrev pub is_create_only : H.HeaderMap → Bool
    is_create_only headers =
        is_some_and (H.get headers (codes "if-none-match"))
          (λ value. bytes_eq (H.as_bytes value) (codes "*"))

    unfoldable pub write_file : AppState → Bytes → H.HeaderMap → Chunks → Handler F Response
    unfolding resolve write_at_path
    write_file app path headers chunks = do
      file_path ← resolve F app path
      given_offset ← lift (parse_optional_u64_header H headers file_offset)
      let offset = Option.get_or given_offset 0
      truncate_size ← lift (parse_optional_u64_header H headers file_truncate)
      if is_create_only headers
          then (if not (offset == 0) || is_some truncate_size
              then fail (bad_request "Conditional creation does not support offsets or truncation")
              else create_file_atomically F H app file_path headers chunks)
          else write_at_path file_path headers offset truncate_size chunks
