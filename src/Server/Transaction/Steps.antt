-- ===== src/Server/Transaction/Steps.antt =====
-- The steps of an upload in a transaction leave entries and bytes other than their own alone.
use mathlib.Core.Path.{subst}
use remote_file_system_in_ru.Base.{
  ℕ, ◌%◌, String, ◌||◌, Bool-cases, ◌≡◌, ◌≢◌, refl, ◌∙◌, inl, inr, Option, none, some, [], ◌∷◌,
  Result, Result-cases, is_some, Option-cases,
}
use remote_file_system_in_ru.FileSystem.{FileSystem, FilePath, ErrorKind, read, read_write}
use remote_file_system_in_ru.FileSystem.Laws.{View, Keeps, IsPreserving}
use remote_file_system_in_ru.Server.Http.{Headers}
use remote_file_system_in_ru.Server.Error.{StorageError, bad_request}
use remote_file_system_in_ru.Server.Metadata.{
  as_time_t, apply_metadata_headers, apply_mode, apply_owner, apply_modified_time, when_some,
  entry_metadata_for_path,
}
use remote_file_system_in_ru.Server.Handlers.{parent}
use remote_file_system_in_ru.Server.Storage.{
  AppState, Handler, Response, io, ◌>>=◌, ◌>>◌, lift, pure, look, fail,
}
use remote_file_system_in_ru.Server.Storage.Preserves.{
  Preserves, pure-Preserves, fail-Preserves, lift-Preserves, look-Preserves, io-Preserves,
  bind-Preserves, then-Preserves,
}
use remote_file_system_in_ru.Server.Transaction.{
  Chunks, discard_on_error, receive, fill, require_missing, commit_link, publish, sync_directory,
  remove_transaction, finish, commit_upload,
}

module _ (F : FileSystem) (V : View F) (law : IsPreserving F V) (H : Headers) (own : ℕ)
    (p : FilePath) (i : ℕ) where
  abbrev R : F.State → F.State → Type 0
  R s t = Keeps V own p i s t

  pub Keeps-refl : (s : F.State) → R s s
  Keeps-refl s = (λ n h. h, λ _. refl)

  pub Keeps-trans : (s t u : F.State) → R s t → R t u → R s u
  Keeps-trans s t u (a, b) (c, d) = (λ n h. c n (a n h), λ h. d h ∙ b h)

  bind :
      {A B : Type 0} (m : Handler F A) (f : A → Handler F B)
      → Preserves F R m
      → ((a : A) → Preserves F R (f a))
      → Preserves F R (m >>= f)
  bind = bind-Preserves F R Keeps-refl Keeps-trans

  after :
      {A B : Type 0} (m : Handler F A) (n : Handler F B)
      → Preserves F R m
      → Preserves F R n
      → Preserves F R (m >> n)
  after = then-Preserves F R Keeps-refl Keeps-trans

  pub discard_on_error-Preserves :
      {A : Type 0} (transaction_path : FilePath) (m : Handler F A)
      → p ≢ transaction_path
      → Preserves F R m
      → Preserves F R (discard_on_error F transaction_path m)
  unfolding discard_on_error Preserves
  discard_on_error-Preserves transaction_path m ne h w = elim (Result-cases (m w).0) [
    | inl (a, e) ↦ rw e (h w)
    | inr (error, e) ↦ rw e (
        Keeps-trans w.disk (m w).1.disk _ (h w)
          (law.remove_file-keeps transaction_path (m w).1.disk own p i ne))
  ]

  receive-Preserves :
      (f : F.File) (chunks : Chunks) → V.inode f ≡ own → Preserves F R (receive F f chunks)
  unfolding receive Preserves
  receive-Preserves f [] same w = Keeps-refl w.disk
  receive-Preserves f (none ∷ chunks) same w = Keeps-refl w.disk
  receive-Preserves f (some chunk ∷ chunks) same w =
      let first : R w.disk (F.write_all f chunk w.disk).1 =
        subst (λ o. Keeps V o p i w.disk (F.write_all f chunk w.disk).1) same
          (law.write_all-keeps f chunk w.disk p i) in
      elim (Result-cases (F.write_all f chunk w.disk).0) [
        | inl (g, e) ↦
            rw (e, receive)
              (Keeps-trans w.disk (F.write_all f chunk w.disk).1 _ first
                (receive-Preserves g chunks (law.write_all-inode f g chunk w.disk e ∙ same) _))
        | inr (error, e) ↦ rw (e, receive) first
      ]

  require_missing-Preserves : (path : FilePath) → Preserves F R (require_missing F path)
  unfolding require_missing Preserves
  require_missing-Preserves path w = Keeps-refl w.disk

  reads :
      {A : Type 0} (message : String) (read : F.State → Result ErrorKind A)
      → Preserves F R (look message read)
  reads = look-Preserves F R Keeps-refl Keeps-trans

  changes :
      {A : Type 0} (message : String) (act : F.State → Result ErrorKind A × F.State)
      → ((s : F.State) → R s (act s).1)
      → Preserves F R (io message act)
  changes = io-Preserves F R Keeps-refl Keeps-trans

  gives : {A : Type 0} (r : Result StorageError A) → Preserves F R (lift r)
  gives = lift-Preserves F R Keeps-refl Keeps-trans

  returns : {A : Type 0} (a : A) → Preserves F R (pure a)
  returns = pure-Preserves F R Keeps-refl Keeps-trans

  when_some-Preserves :
      (o : Option ℕ) (act : ℕ → Handler F (Unit {0}))
      → ((n : ℕ) → Preserves F R (act n))
      → Preserves F R (when_some F o act)
  when_some-Preserves none act h = returns tt
  when_some-Preserves (some n) act h = h n

  apply_mode-Preserves : (path : FilePath) (mode : ℕ) → Preserves F R (apply_mode F path mode)
  unfolding apply_mode
  apply_mode-Preserves path mode =
      after _ _ (reads _ _) (changes _ _ (λ s. law.set_mode-keeps path (mode % 4096) s own p i))

  apply_owner-Preserves :
      (path : FilePath) (uid gid : Option ℕ) → Preserves F R (apply_owner F path uid gid)
  unfolding apply_owner
  apply_owner-Preserves path uid gid = elim (Bool-cases (is_some uid || is_some gid)) [
    | inr neither ↦ rw (neither, apply_owner) (returns tt)
    | inl given ↦
        rw (given, apply_owner)
          (bind _ _ (reads _ _) (λ q. changes _ _ (λ s. law.chown-keeps q uid gid s own p i)))
  ]

  apply_modified_time-Preserves :
      (path : FilePath) (time : ℕ) → Preserves F R (apply_modified_time F path time)
  unfolding apply_modified_time
  apply_modified_time-Preserves path time = bind _ _ (reads _ _) (λ q.
      after _ _ (reads _ _)
        (changes _ _ (λ s. law.set_modified-keeps q (as_time_t time) s own p i)))

  pub apply_metadata_headers-Preserves :
      (path : FilePath) (headers : H.HeaderMap)
      → Preserves F R (apply_metadata_headers F H path headers)
  unfolding apply_metadata_headers
  apply_metadata_headers-Preserves path headers = bind _ _ (gives _) (λ mode.
      after _ _ (when_some-Preserves mode _ (apply_mode-Preserves path)) (
        bind _ _ (gives _) (λ uid. bind _ _ (gives _) (λ gid.
          after _ _ (apply_owner-Preserves path uid gid) (
            bind _ _ (gives _)
              (λ time. when_some-Preserves time _ (apply_modified_time-Preserves path)))))))

  pub fill-Preserves :
      (transaction_path : FilePath) (f : F.File) (headers : H.HeaderMap) (chunks : Chunks)
      → V.inode f ≡ own
      → Preserves F R (fill F H transaction_path f headers chunks)
  unfolding fill
  fill-Preserves transaction_path f headers chunks same =
      bind _ _ (receive-Preserves f chunks same) (λ g.
        after _ _ (changes _ _ (λ s. law.sync_all-keeps g s own p i)) (
          after _ _ (apply_metadata_headers-Preserves transaction_path headers)
            (changes _ _ (λ s. law.sync_all-keeps g s own p i))))

  commit_link-Preserves : (a b : FilePath) → Preserves F R (commit_link F a b)
  unfolding commit_link Preserves
  commit_link-Preserves a b w = elim (Result-cases (F.hard_link a b w.disk).0) [
    | inl (x, e) ↦ rw (e, commit_link) (law.hard_link-keeps a b w.disk own p i)
    | inr (x, e) ↦ rw (e, commit_link) (law.hard_link-keeps a b w.disk own p i)
  ]

  publish-Preserves : (a d b : FilePath) → Preserves F R (publish F H a d b)
  unfolding publish
  publish-Preserves a d b =
      after _ _ (changes _ _ (λ s. law.create_dir_all-keeps d s own p i))
        (commit_link-Preserves a b)

  sync_directory-Preserves : (d : FilePath) → Preserves F R (sync_directory F d)
  unfolding sync_directory
  sync_directory-Preserves d =
      bind _ _ (changes _ _ (λ s. law.open_file-keeps read d s own p i))
        (λ g. changes _ _ (λ s. law.sync_all-keeps g s own p i))

  remove_transaction-Preserves : (d a : FilePath) → p ≢ a → Preserves F R (remove_transaction F d a)
  unfolding remove_transaction Preserves
  remove_transaction-Preserves d a ne w =
      let gone : R w.disk (F.remove_file a w.disk).1 = law.remove_file-keeps a w.disk own p i ne in
      elim (Result-cases (F.remove_file a w.disk).0) [
        | inl (x, e) ↦
            rw (e, remove_transaction)
              (Keeps-trans w.disk (F.remove_file a w.disk).1 _ gone (sync_directory-Preserves d _))
        | inr (x, e) ↦ rw (e, remove_transaction) gone
      ]

  entry_metadata_for_path-Preserves : (a : FilePath) → Preserves F R (entry_metadata_for_path F a)
  unfolding entry_metadata_for_path
  entry_metadata_for_path-Preserves a = bind _ _ (reads _ _) (λ m. gives _)

  finish-Preserves : (d a e b : FilePath) → p ≢ a → Preserves F R (finish F H d a e b)
  unfolding finish
  finish-Preserves d a e b ne =
      bind _ _ (changes _ _ (λ s. law.open_file-keeps read_write b s own p i)) (λ g.
        after _ _ (changes _ _ (λ s. law.sync_all-keeps g s own p i)) (
          after _ _ (sync_directory-Preserves e) (
            after _ _ (remove_transaction-Preserves d a ne)
              (bind _ _ (entry_metadata_for_path-Preserves b) (λ m. returns _)))))

  pub commit_upload-Preserves :
      (app : AppState) (a : FilePath) (f : F.File) (b : FilePath) (headers : H.HeaderMap)
      (chunks : Chunks)
      → V.inode f ≡ own
      → p ≢ a
      → Preserves F R (commit_upload F H app a f b headers chunks)
  unfolding commit_upload
  commit_upload-Preserves app a f b headers chunks same ne =
      after _ _ (discard_on_error-Preserves a _ ne (fill-Preserves a f headers chunks same))
        (after _ _ (discard_on_error-Preserves a _ ne (require_missing-Preserves b)) last)
    where
      last : Preserves F R {A = Response} (elim (parent b) [
        | none ↦ fail (bad_request "Path has no parent directory")
        | some directory ↦
            discard_on_error F a (publish F H a directory b)
            >> finish F H app.transaction_dir a directory b
      ])
      last = elim (Option-cases (parent b)) [
        | inl none_there ↦ rw none_there (fail-Preserves F R Keeps-refl Keeps-trans Response _)
        | inr (directory, e) ↦ rw e (
            after _ _ (discard_on_error-Preserves a _ ne (publish-Preserves a directory b))
              (finish-Preserves app.transaction_dir a directory b ne))
      ]
