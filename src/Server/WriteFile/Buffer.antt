-- ===== src/Server/WriteFile/Buffer.antt =====
-- The buffer of `write_file`: what the writes through it leave in the file.
use mathlib.Core.Option
use remote_file_system_in_ru.Base.{
  ℕ, ◌+◌, ◌≡◌, refl, sym, ◌∙◌, ap, inl, inr, true, false, not, ◌&&◌, Option, none, some, [], ◌∷◌,
  ◌++◌, length, length-append, arith, ltb, leb, Bool-cases, Result, ok, err, map_err, ok-injective,
}
use remote_file_system_in_ru.Base.Bytes.{Bytes}
use remote_file_system_in_ru.FileSystem.{FileSystem}
use remote_file_system_in_ru.FileSystem.Laws.{View, IsWriting, overwrite}
use remote_file_system_in_ru.Server.Error.{StorageError}
use remote_file_system_in_ru.Server.Storage.{World, Handler, continue, ◌>>=◌, pure, fail, io}
use remote_file_system_in_ru.Server.Transaction.{Chunks}
use remote_file_system_in_ru.Server.WriteFile.{
  Receiving, is_empty, write_block, make_room, store_chunk, receive_chunks, drain,
}
use remote_file_system_in_ru.Server.WriteFile.Overwrite.{overwrite-nil, overwrite-overwrite}

module _ {F : FileSystem} where
  continue-ok :
      {A B : Type 0} (r : Result StorageError A) (f : A → Handler F B) (w : World F) (b : B)
      → (continue r f w).0 ≡ ok b
      → (a : A) × (r ≡ ok a) × ((f a w).0 ≡ ok b) × ((continue r f w).1 ≡ (f a w).1)
  continue-ok (ok a) f w b h = (a, refl, h, refl)
  continue-ok (err error) f w b h = absurd (cc h)

  -- A chain that gives a result is one whose first part does, and then the rest.
  bind-ok :
      {A B : Type 0} (m : Handler F A) (f : A → Handler F B) (w : World F) (b : B)
      → ((m >>= f) w).0 ≡ ok b
      → (a : A) × ((m w).0 ≡ ok a) × ((f a (m w).1).0 ≡ ok b) × (((m >>= f) w).1 ≡ (f a (m w).1).1)
  unfolding ◌>>=◌
  bind-ok m f w b h = continue-ok (m w).0 f (m w).1 b h

map_err-ok {ℓ} :
    {A E E' : Type ℓ} (f : E → E') (r : Result E A) (a : A) → map_err f r ≡ ok a → r ≡ ok a
map_err-ok f (ok x) a h = ap ok (ok-injective h)
map_err-ok f (err e) a h = absurd (cc h)

-- The bytes of a body that arrives whole.
unfoldable pub body_of : Chunks → Option Bytes
body_of [] = some []
body_of (none ∷ chunks) = none
body_of (some chunk ∷ chunks) = Option.map (◌++◌ chunk) (body_of chunks)

module _ (F : FileSystem) (V : View F) (law : IsWriting F V) where
  -- The file of a state as it will be once the buffer is written.
  unfoldable pub content : Receiving F → World F → Bytes
  content st w = overwrite (V.position st.file) st.write_buffer (V.bytes w.disk (V.inode st.file))

  unfoldable pub end : Receiving F → ℕ
  end st = V.position st.file + length st.write_buffer

  -- From one state to another, the bytes are written behind what was there.
  pub record Written (st : Receiving F) (w : World F) (extra : Bytes) (st' : Receiving F)
      (w' : World F) : Type 0 where
    pub same_file : V.inode st'.file ≡ V.inode st.file
    pub moved : end st' ≡ end st + length extra
    pub written : content st' w' ≡ overwrite (end st) extra (content st w)

  block-ok :
      (f g : F.File) (b : Bytes) (w : World F)
      → (write_block F f b w).0 ≡ ok g
      → (V.inode g ≡ V.inode f)
        × (V.position g ≡ V.position f + length b)
        × (V.bytes (write_block F f b w).1.disk (V.inode f)
            ≡ overwrite (V.position f) b (V.bytes w.disk (V.inode f)))
  unfolding write_block io
  block-ok f g b w h =
      law.write_all-written f g b w.disk (map_err-ok _ (F.write_all f b w.disk).0 g h)

  -- The state after its buffer is written to the file, which is then open as `g`.
  abbrev flushed : Receiving F → F.File → Receiving F
  flushed st g = record st { file = g; write_buffer = [] }

  flush-Written :
      (st : Receiving F) (g : F.File) (w : World F)
      → (write_block F st.file st.write_buffer w).0 ≡ ok g
      → Written st w [] (flushed st g) (write_block F st.file st.write_buffer w).1
  unfolding content end
  flush-Written st g w h =
      let (same, behind, bytes) = block-ok st.file g st.write_buffer w h in
      record {
        same_file = same;
        moved = omega (arith, behind);
        written =
            overwrite-nil (V.position g) _
            ∙ ap (V.bytes (write_block F st.file st.write_buffer w).1.disk) same
            ∙ bytes
            ∙ sym (overwrite-nil (V.position st.file + length st.write_buffer) _);
      }

  Written-refl : (st : Receiving F) (w : World F) → Written st w [] st w
  unfolding content end
  Written-refl st w = record {
    same_file = refl;
    moved = omega arith;
    written = sym (overwrite-nil (V.position st.file + length st.write_buffer) _);
  }

  roomy :
      (size : ℕ) (buffer chunk : Bytes)
      → (ltb size (length buffer + length chunk) && not (is_empty buffer)) ≡ false
      → leb size (length chunk) ≡ true
      → buffer ≡ []
  roomy size [] chunk h large = refl
  roomy size (c ∷ buffer) chunk h large = ground arith

  make_room-Written :
      (size : ℕ) (st st' : Receiving F) (chunk : Bytes) (w : World F)
      → (make_room F size st chunk w).0 ≡ ok st'
      → Written st w [] st' (make_room F size st chunk w).1
        × (leb size (length chunk) ≡ true → st'.write_buffer ≡ [])
  unfolding make_room pure
  make_room-Written size st st' chunk w h =
      elim (Bool-cases
        (ltb size (length st.write_buffer + length chunk) && not (is_empty st.write_buffer))) [
          | inl full ↦
              let (g, eg, e, at) =
                bind-ok (write_block F st.file st.write_buffer) (λ g. pure (flushed st g)) w st'
                  (rw (full, make_room) at h) in
              rw (full, make_room, at, ← ok-injective e) (flush-Written st g w eg, λ _. refl)
          | inr fits ↦
              let e : st ≡ st' = ok-injective (rw (fits, make_room) at h) in
              rw (fits, make_room, ← e) (Written-refl st w, roomy size st.write_buffer chunk fits)
        ]

  at_end :
      (st : Receiving F) (chunk : Bytes) (w : World F)
      → overwrite
          (V.position st.file + 0)
          chunk
          (overwrite (V.position st.file) [] (V.bytes w.disk (V.inode st.file)))
        ≡ overwrite (V.position st.file) chunk (V.bytes w.disk (V.inode st.file))
  at_end st chunk w =
      let e : V.position st.file + 0 ≡ V.position st.file = omega arith in
      rw (e, overwrite-nil (V.position st.file) (V.bytes w.disk (V.inode st.file))) refl

  straight-Written :
      (st : Receiving F) (g : F.File) (chunk : Bytes) (w : World F)
      → st.write_buffer ≡ []
      → (write_block F st.file chunk w).0 ≡ ok g
      → Written st w chunk (record st { file = g }) (write_block F st.file chunk w).1
  unfolding content end
  straight-Written st g chunk w empty h =
      let (same, behind, bytes) = block-ok st.file g chunk w h in
      record {
        same_file = same;
        moved = omega (arith, behind);
        written = rw empty (
            overwrite-nil (V.position g) _
            ∙ ap (V.bytes (write_block F st.file chunk w).1.disk) same
            ∙ bytes
            ∙ sym (at_end st chunk w));
      }

  buffered-Written :
      (st : Receiving F) (chunk : Bytes) (w : World F)
      → Written st w chunk (record st { write_buffer = st.write_buffer ++ chunk }) w
  unfolding content end
  buffered-Written st chunk w = record {
    same_file = refl;
    moved = omega (arith, length-append st.write_buffer chunk);
    written = sym (overwrite-overwrite (V.position st.file) st.write_buffer chunk _);
  }

  store_chunk-Written :
      (size : ℕ) (st st' : Receiving F) (chunk : Bytes) (w : World F)
      → (leb size (length chunk) ≡ true → st.write_buffer ≡ [])
      → (store_chunk F size st chunk w).0 ≡ ok st'
      → Written st w chunk st' (store_chunk F size st chunk w).1
  unfolding store_chunk pure
  store_chunk-Written size st st' chunk w room h = elim (Bool-cases (leb size (length chunk))) [
    | inl large ↦
        let (g, eg, e, at) =
          bind-ok (write_block F st.file chunk) (λ g. pure (record st { file = g })) w st'
            (rw (large, store_chunk) at h) in
        rw (large, store_chunk, at, ← ok-injective e)
          (straight-Written st g chunk w (room large) eg)
    | inr small ↦
        let e : record st { write_buffer = st.write_buffer ++ chunk } ≡ st' =
          ok-injective (rw (small, store_chunk) at h) in
        rw (small, store_chunk, ← e) (buffered-Written st chunk w)
  ]

  Written-trans :
      (st st' st'' : Receiving F) (w w' w'' : World F) (a b : Bytes)
      → Written st w a st' w'
      → Written st' w' b st'' w''
      → Written st w (a ++ b) st'' w''
  Written-trans st st' st'' w w' w'' a b h k = record {
    same_file = k.same_file ∙ h.same_file;
    moved = omega (arith, h.moved, k.moved, length-append a b);
    written =
        k.written
        ∙ ap (overwrite (end st') b) h.written
        ∙ ap (λ p. overwrite p b (overwrite (end st) a (content st w))) h.moved
        ∙ overwrite-overwrite (end st) a b (content st w);
  }

  abbrev counted : Receiving F → ℕ → Receiving F
  counted st n = record st { bytes_written = st.bytes_written + n }

  -- The count of the bytes changes nothing in the file.
  Written-counted :
      (st : Receiving F) (n : ℕ) (w : World F) (extra : Bytes) (st' : Receiving F) (w' : World F)
      → Written (counted st n) w extra st' w'
      → Written st w extra st' w'
  unfolding content end
  Written-counted st n w extra st' w' h = record {
    same_file = h.same_file;
    moved = h.moved;
    written = h.written;
  }

  abbrev begun : F.File → Receiving F
  begun f = record { file = f; write_buffer = []; bytes_written = 0 }

  begun-content :
      (f : F.File) (body : Bytes) (w : World F)
      → overwrite (end (begun f)) body (content (begun f) w)
        ≡ overwrite (V.position f) body (V.bytes w.disk (V.inode f))
  unfolding content end
  begun-content f body w = at_end (begun f) body w

  receive_chunks-Written :
      (size : ℕ) (chunks : Chunks) (st st' : Receiving F) (w : World F)
      → (receive_chunks F size chunks st w).0 ≡ ok st'
      → (body : Bytes) × (body_of chunks ≡ some body)
        × Written st w body st' (receive_chunks F size chunks st w).1
  unfolding receive_chunks body_of pure fail
  receive_chunks-Written size [] st st' w h = ([], refl, rw (← ok-injective h) (Written-refl st w))
  receive_chunks-Written size (none ∷ chunks) st st' w h = absurd (cc h)
  receive_chunks-Written size (some chunk ∷ chunks) st st' w h =
      let st0 = counted st (length chunk) in
      let (r, er, e1, at1) =
        bind-ok (make_room F size st0 chunk)
          (λ roomy.
            store_chunk F size roomy chunk >>= λ stored. receive_chunks F size chunks stored)
          w st' h in
      let (s, es, e2, at2) =
        bind-ok (store_chunk F size r chunk) (receive_chunks F size chunks) _ st' e1 in
      let (room, empty) = make_room-Written size st0 r chunk w er in
      let (body, eb, rest) = receive_chunks-Written size chunks s st' _ e2 in
      (
        chunk ++ body,
        rw eb refl,
        rw (at1, at2)
            (Written-counted st (length chunk) w (chunk ++ body) st' _ (
              Written-trans st0 r st' w _ _ [] (chunk ++ body) room (
                Written-trans r s st' _ _ _ chunk body
                  (store_chunk-Written size r s chunk _ empty es) rest))),
      )

  is_empty-nil : (buffer : Bytes) → is_empty buffer ≡ true → buffer ≡ []
  is_empty-nil [] h = refl
  is_empty-nil (c ∷ buffer) h = absurd (cc h)

  drain-content :
      (st : Receiving F) (g : F.File) (w : World F)
      → (drain F st w).0 ≡ ok g
      → (V.inode g ≡ V.inode st.file) × (V.bytes (drain F st w).1.disk (V.inode g) ≡ content st w)
  unfolding drain pure content
  drain-content st g w h = elim (Bool-cases (is_empty st.write_buffer)) [
    | inl empty ↦
        let e : st.file ≡ g = ok-injective (rw (empty, drain) at h) in
        rw (empty, drain, ← e)
          (
            refl,
            rw (is_empty-nil st.write_buffer empty) (sym (overwrite-nil (V.position st.file) _)),
          )
    | inr full ↦
        let (same, behind, bytes) = block-ok st.file g st.write_buffer w (rw (full, drain) at h) in
        rw (full, drain)
          (same, ap (V.bytes (write_block F st.file st.write_buffer w).1.disk) same ∙ bytes)
  ]

  -- On a file system with the law of IsWriting, a body received through a buffer of any size and
  -- drained, where that gives a result, has arrived whole, and it stands in the file from the
  -- position on as if written at once.
  pub receive_chunks-drain :
      (size : ℕ) (chunks : Chunks) (f g : F.File) (w : World F)
      → ((receive_chunks F size chunks (record { file = f; write_buffer = []; bytes_written = 0 })
            >>= drain F)
          w).0
        ≡ ok g
      → (body : Bytes) × (body_of chunks ≡ some body)
        × (V.inode g ≡ V.inode f)
        × (V.bytes
              ((receive_chunks F size chunks
                    (record { file = f; write_buffer = []; bytes_written = 0 })
                  >>= drain F)
                w).1.disk
              (V.inode g)
            ≡ overwrite (V.position f) body (V.bytes w.disk (V.inode f)))
  receive_chunks-drain size chunks f g w h =
      let (st, es, e, at) = bind-ok (receive_chunks F size chunks (begun f)) (drain F) w g h in
      let (body, eb, k) = receive_chunks-Written size chunks (begun f) st w es in
      let (same, bytes) = drain-content st g _ e in
      (body, eb, same ∙ k.same_file, rw at (bytes ∙ k.written ∙ begun-content f body w))
