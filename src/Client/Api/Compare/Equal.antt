-- ===== src/Client/Api/Compare/Equal.antt =====
-- The comparison in pieces against the comparison of whole files.
use remote_file_system_in_ru.Base.{
  ℕ, zero, suc, ◌+◌, ◌-◌, min, ◌≤◌, ◌≡◌, refl, sym, ap, ◌∙◌, Bool, true, false, ◌&&◌, inl, inr,
  Bool-cases, [], ◌∷◌, arith, length, take, drop, ltb, ◌==◌, ok, if◌then◌else◌,
}
use remote_file_system_in_ru.Base.Bytes.{Bytes, bytes_eq}
use remote_file_system_in_ru.Base.Effect.{Effect, bind-ok, ◌>>=◌, pure}
use remote_file_system_in_ru.FileSystem.{FileSystem}
use remote_file_system_in_ru.Client.Journal
use remote_file_system_in_ru.Client.Api.{Transport, Connection, UploadError}
use remote_file_system_in_ru.Client.Api.Calls.{read_file}
use remote_file_system_in_ru.Client.Api.Compare.{Outside, locally, remotely, compare_from}

bytes_eq-take-drop :
    (n : ℕ) (s t : Bytes)
    → bytes_eq s t ≡ (bytes_eq (take n s) (take n t) && bytes_eq (drop n s) (drop n t))
unfolding bytes_eq
bytes_eq-take-drop zero s t = refl
bytes_eq-take-drop (suc n) [] [] = refl
bytes_eq-take-drop (suc n) [] (d ∷ t) = refl
bytes_eq-take-drop (suc n) (c ∷ s) [] = refl
bytes_eq-take-drop (suc n) (c ∷ s) (d ∷ t) = elim (Bool-cases (c == d)) [
  | inl same ↦ rw same (bytes_eq-take-drop n s t)
  | inr other ↦ rw other refl
]

drop-nil : (n : ℕ) → drop {A = ℕ} n [] ≡ []
drop-nil zero = refl
drop-nil (suc n) = refl

drop-drop : (m n : ℕ) (s : Bytes) → drop n (drop m s) ≡ drop (m + n) s
drop-drop zero n s = ap (λ k. drop k s) (omega arith)
drop-drop (suc m) n [] = drop-nil n ∙ sym (drop-nil (suc m + n))
drop-drop (suc m) n (c ∷ s) =
    drop-drop m n s ∙ ap (λ k. drop k (c ∷ s)) (let e : suc (m + n) ≡ suc m + n = omega arith in e)

-- Two rests agree where their first pieces do and what follows them does.
bytes_eq-same :
    (m n : ℕ) (s t : Bytes)
    → bytes_eq (take n (drop m s)) (take n (drop m t)) ≡ true
    → bytes_eq (drop m s) (drop m t) ≡ bytes_eq (drop (m + n) s) (drop (m + n) t)
bytes_eq-same m n s t same =
    bytes_eq-take-drop n (drop m s) (drop m t) ∙ rw (same, drop-drop m n s, drop-drop m n t) refl

bytes_eq-other :
    (m n : ℕ) (s t : Bytes)
    → bytes_eq (take n (drop m s)) (take n (drop m t)) ≡ false
    → bytes_eq (drop m s) (drop m t) ≡ false
bytes_eq-other m n s t other = bytes_eq-take-drop n (drop m s) (drop m t) ∙ rw other refl

drop-all : (s : Bytes) (n : ℕ) → length s ≤ n → drop n s ≡ []
drop-all [] n h = drop-nil n
drop-all (c ∷ s) zero h = absurd (omega arith)
drop-all (c ∷ s) (suc n) h = drop-all s n (omega arith)

-- Two effects that leave the state alone, and what follows them.
round {ℓ κ μ} :
    {S : Type ℓ} {E : Type κ} {A : Type μ} (m : Effect S E A) (n : Effect S E Bytes)
    (f : A → Bytes → Effect S E Bool) (a : A) (b : Bytes) {s : S}
    → m s ≡ (ok a, s)
    → n s ≡ (ok b, s)
    → (m >>= (λ x. n >>= f x)) s ≡ f a b s
round m n f a b {s} e e' = bind-ok m (λ x. n >>= f x) s s a e ∙ bind-ok n (f a) s s b e'

-- A file of the disk, open at each position, and the answers of a server: pieces of fixed contents,
-- and nothing changes.
module _ (F : FileSystem) (T : Transport) (connection : Connection) (path : Bytes) (w : Outside F T)
    (local remote : Bytes) where
  pub record ReadsPieces : Type 0 where
    pub positioned : ℕ → F.File
    pub reads :
        (offset n : ℕ)
        → offset + n ≤ length local
        → F.read_exact (positioned offset) n w.disk
          ≡ ok (take n (drop offset local), positioned (offset + n))
    pub serves :
        (offset n : ℕ)
        → offset + n ≤ length remote
        → read_file T connection path offset n w.remote
          ≡ (ok (take n (drop offset remote)), w.remote)

  module _ (pieces : ReadsPieces) (same_size : length remote ≡ length local) where
    read_piece :
        (offset n : ℕ)
        → offset + n ≤ length local
        → locally {F = F} {T = T} (Journal.look F (F.read_exact (pieces.positioned offset) n)) w
          ≡ (ok (take n (drop offset local), pieces.positioned (offset + n)), w)
    unfolding locally Journal.look
    read_piece offset n h = rw (pieces.reads offset n h) refl

    serve_piece :
        (offset n : ℕ)
        → offset + n ≤ length remote
        → remotely {F = F} {T = T} (read_file T connection path offset n) w
          ≡ (ok (take n (drop offset remote)), w)
    unfolding remotely
    serve_piece offset n h = rw (pieces.serves offset n h) refl

    -- For a buffer of at least one byte, a local file that is open at the offset and read on by
    -- pieces and a server that serves the pieces of a remote file of the same size, with as many
    -- rounds as there are bytes left, the loop answers whether the rest of the remote file is the
    -- rest of the local one, and changes nothing.
    pub compare_from-eq :
        (size fuel offset : ℕ)
        → 1 ≤ size
        → length local ≤ fuel + offset
        → offset ≤ length local
        → compare_from F T connection size fuel path
            (pieces.positioned offset)
            (length local)
            offset
            w
          ≡ (ok (bytes_eq (drop offset remote) (drop offset local)), w)
    unfolding compare_from remotely ◌>>=◌ pure bytes_eq
    compare_from-eq size zero offset some_bytes enough within =
        let r = drop-all remote offset (omega (arith, same_size)) in
        let l = drop-all local offset (omega arith) in rw (r, l) refl
    compare_from-eq size (suc fuel) offset some_bytes enough within =
        elim (Bool-cases (ltb offset (length local))) [
          | inr done ↦ rw done (
              rw
                (
                  drop-all remote offset (ground (arith, same_size)),
                  drop-all local offset (ground arith),
                )
                refl)
          | inl more ↦
              let requested = min (length local - offset) size in
              let rest =
                compare_from-eq size fuel (offset + requested) some_bytes (ground arith)
                  (ground arith) in
              let piece = read_piece offset requested (ground arith) in
              let served = serve_piece offset requested (ground (arith, same_size)) in
              let judge : Bytes × F.File → Bytes → Effect (Outside F T) UploadError Bool =
                λ ours theirs.
                  if bytes_eq theirs ours.0
                  then compare_from F T connection size fuel path ours.1 (length local)
                      (offset + requested)
                  else pure false in
              let after =
                round
                  (locally {F = F} {T = T}
                    (Journal.look F (F.read_exact (pieces.positioned offset) requested)))
                  (remotely {F = F} {T = T} (read_file T connection path offset requested)) judge _
                  _ piece served in
              elim (Bool-cases (
                bytes_eq (take requested (drop offset remote))
                  (take requested (drop offset local)))) [
                    | inl same ↦ rw more (
                        after
                        ∙ rw same rest
                        ∙ ap (λ b. (ok b, w))
                            (sym (bytes_eq-same offset requested remote local same)))
                    | inr other ↦ rw more (
                        after
                        ∙ rw other (
                            ap (λ b. (ok b, w))
                              (sym (bytes_eq-other offset requested remote local other))))
                  ]
        ]
