-- ===== src/Server/WriteFile/Total.antt =====
-- Where every write succeeds, a body that arrives whole is received, and nothing of it is lost.
use remote_file_system_in_ru.Base.{
  ℕ, ◌+◌, ◌≡◌, refl, inl, inr, true, none, some, [], ◌∷◌, Option-cases, Bool-cases, ◌&&◌, not, ltb,
  leb, length, Result, ok, err, is_ok, map_err,
}
use remote_file_system_in_ru.Base.Bytes.{Bytes}
use remote_file_system_in_ru.FileSystem.{FileSystem}
use remote_file_system_in_ru.FileSystem.Laws.{View, IsWriting, overwrite}
use remote_file_system_in_ru.Server.Error.{StorageError}
use remote_file_system_in_ru.Server.Storage.{World, Handler, continue, ◌>>=◌, pure, io}
use remote_file_system_in_ru.Server.Transaction.{Chunks}
use remote_file_system_in_ru.Server.WriteFile.{
  Receiving, is_empty, write_block, make_room, store_chunk, receive_chunks, drain,
}
use remote_file_system_in_ru.Server.WriteFile.Buffer.{body_of, receive_chunks-drain}

-- A handler that gives a result in every world.
abbrev IsTotal {ℓ} : {A : Type ℓ} (F : FileSystem) → Handler F A → Type 0
IsTotal F m = (w : World F) → is_ok (m w).0 ≡ true

map_err-ok {ℓ} :
    {A E E' : Type ℓ} (f : E → E') (r : Result E A) → is_ok r ≡ true → is_ok (map_err f r) ≡ true
map_err-ok f (ok x) h = refl
map_err-ok f (err e) h = absurd (cc h)

module _ (F : FileSystem) where
  continue-IsTotal :
      {A B : Type 0} (r : Result StorageError A) (f : A → Handler F B) (w : World F)
      → is_ok r ≡ true
      → ((a : A) → IsTotal F (f a))
      → is_ok (continue r f w).0 ≡ true
  continue-IsTotal (ok a) f w h k = k a w
  continue-IsTotal (err error) f w h k = absurd (cc h)

  bind-IsTotal :
      {A B : Type 0} (m : Handler F A) (f : A → Handler F B)
      → IsTotal F m
      → ((a : A) → IsTotal F (f a))
      → IsTotal F (m >>= f)
  unfolding ◌>>=◌
  bind-IsTotal m f h k w = continue-IsTotal (m w).0 f (m w).1 (h w) k

module _ (F : FileSystem)
    (writes : (f : F.File) (b : Bytes) (s : F.State) → is_ok (F.write_all f b s).0 ≡ true) where
  write_block-IsTotal : (f : F.File) (b : Bytes) → IsTotal F (write_block F f b)
  unfolding write_block io
  write_block-IsTotal f b w = map_err-ok _ (F.write_all f b w.disk).0 (writes f b w.disk)

  make_room-IsTotal :
      (size : ℕ) (st : Receiving F) (chunk : Bytes) → IsTotal F (make_room F size st chunk)
  unfolding make_room pure
  make_room-IsTotal size st chunk w =
      elim (Bool-cases
        (ltb size (length st.write_buffer + length chunk) && not (is_empty st.write_buffer))) [
          | inl full ↦
              rw (full, make_room)
                (bind-IsTotal F (write_block F st.file st.write_buffer) _ (write_block-IsTotal _ _)
                  (λ g v. refl) w)
          | inr fits ↦ rw (fits, make_room) refl
        ]

  store_chunk-IsTotal :
      (size : ℕ) (st : Receiving F) (chunk : Bytes) → IsTotal F (store_chunk F size st chunk)
  unfolding store_chunk pure
  store_chunk-IsTotal size st chunk w = elim (Bool-cases (leb size (length chunk))) [
    | inl large ↦
        rw (large, store_chunk)
          (bind-IsTotal F (write_block F st.file chunk) _ (write_block-IsTotal _ _) (λ g v. refl) w)
    | inr small ↦ rw (small, store_chunk) refl
  ]

  drain-IsTotal : (st : Receiving F) → IsTotal F (drain F st)
  unfolding drain pure
  drain-IsTotal st w = elim (Bool-cases (is_empty st.write_buffer)) [
    | inl empty ↦ rw (empty, drain) refl
    | inr full ↦ rw (full, drain) (write_block-IsTotal st.file st.write_buffer w)
  ]

  receive_chunks-IsTotal :
      (size : ℕ) (chunks : Chunks) (body : Bytes) (st : Receiving F)
      → body_of chunks ≡ some body
      → IsTotal F (receive_chunks F size chunks st)
  unfolding receive_chunks body_of pure
  receive_chunks-IsTotal size [] body st h w = refl
  receive_chunks-IsTotal size (none ∷ chunks) body st h w = absurd (cc h)
  receive_chunks-IsTotal size (some chunk ∷ chunks) body st h w =
      elim (Option-cases (body_of chunks)) [
        | inl broken ↦ absurd (cc (rw broken at h))
        | inr (rest, e) ↦
            bind-IsTotal F (make_room F size _ chunk) _ (make_room-IsTotal size _ chunk)
              (λ r.
                bind-IsTotal F (store_chunk F size r chunk) _ (store_chunk-IsTotal size r chunk)
                  (λ s. receive_chunks-IsTotal size chunks rest s e))
              w
      ]

is_ok-ok {ℓ} : {A E : Type ℓ} (r : Result E A) → is_ok r ≡ true → (a : A) × (r ≡ ok a)
is_ok-ok (ok a) h = (a, refl)
is_ok-ok (err error) h = absurd (cc h)

module _ (F : FileSystem) (V : View F) (law : IsWriting F V)
    (writes : (f : F.File) (b : Bytes) (s : F.State) → is_ok (F.write_all f b s).0 ≡ true) where
  -- On a file system with the law of IsWriting where every write succeeds, a body that arrives
  -- whole is received through a buffer of any size and drained with a result, and the whole body
  -- then stands in the file from the position on, as if written at once.
  pub receive_chunks-drain_total :
      (size : ℕ) (chunks : Chunks) (body : Bytes) (f : F.File) (w : World F)
      → body_of chunks ≡ some body
      → let run =
          (receive_chunks F size chunks (record { file = f; write_buffer = []; bytes_written = 0 })
              >>= drain F)
            w in
        (g : F.File) × (run.0 ≡ ok g)
        × (V.inode g ≡ V.inode f)
        × (V.bytes run.1.disk (V.inode g)
            ≡ overwrite (V.position f) body (V.bytes w.disk (V.inode f)))
  receive_chunks-drain_total size chunks body f w whole =
      let st : Receiving F = record { file = f; write_buffer = []; bytes_written = 0 } in
      let (g, e) = is_ok-ok ((receive_chunks F size chunks st >>= drain F) w).0 (
        bind-IsTotal F (receive_chunks F size chunks st) (drain F)
          (receive_chunks-IsTotal F writes size chunks body st whole) (drain-IsTotal F writes) w) in
      let (arrived, same, inode, bytes) = receive_chunks-drain F V law size chunks f g w e in
      let whole_body : body ≡ arrived = cc (whole, same) in (g, e, inode, rw whole_body bytes)
