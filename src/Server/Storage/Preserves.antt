-- ===== src/Server/Storage/Preserves.antt =====
-- Relations between the disk before and after a handler: a reflexive and transitive relation that
-- every step keeps is kept by the whole handler.
use remote_file_system_in_ru.Base.{String, Result, ok, err}
use remote_file_system_in_ru.FileSystem.{ErrorKind, FileSystem}
use remote_file_system_in_ru.Server.Error.{StorageError}
use remote_file_system_in_ru.Server.Storage.{
  World, Handler, continue, ◌>>=◌, ◌>>◌, pure, fail, lift, look, io,
}

module _ (F : FileSystem) (R : F.State → F.State → Type 0) where
  unfoldable pub Preserves {ℓ} : {A : Type ℓ} → Handler F A → Type 0
  Preserves m = (w : World F) → R w.disk (m w).1.disk

module _ (F : FileSystem) (R : F.State → F.State → Type 0) (same : (s : F.State) → R s s)
    (chain : (s t u : F.State) → R s t → R t u → R s u) where
  pub pure-Preserves {ℓ} : {A : Type ℓ} (a : A) → Preserves F R (pure a)
  unfolding pure Preserves
  pure-Preserves a w = same w.disk

  pub fail-Preserves {ℓ} : (A : Type ℓ) (error : StorageError) → Preserves F R {A = A} (fail error)
  unfolding fail Preserves
  fail-Preserves A error w = same w.disk

  pub lift-Preserves {ℓ} : {A : Type ℓ} (r : Result StorageError A) → Preserves F R (lift r)
  unfolding lift Preserves
  lift-Preserves r w = same w.disk

  pub look-Preserves {ℓ} :
      {A : Type ℓ} (message : String) (read : F.State → Result ErrorKind A)
      → Preserves F R (look message read)
  unfolding look Preserves
  look-Preserves message read w = same w.disk

  pub io-Preserves {ℓ} :
      {A : Type ℓ} (message : String) (act : F.State → Result ErrorKind A × F.State)
      → ((s : F.State) → R s (act s).1)
      → Preserves F R (io message act)
  unfolding io Preserves
  io-Preserves message act h w = h w.disk

  pub continue-Preserves {ℓ κ} :
      {A : Type ℓ} {B : Type κ} (r : Result StorageError A) (f : A → Handler F B)
      → ((a : A) → Preserves F R (f a))
      → Preserves F R (continue r f)
  unfolding Preserves
  continue-Preserves (ok a) f h w = h a w
  continue-Preserves (err error) f h w = same w.disk

  pub bind-Preserves {ℓ κ} :
      {A : Type ℓ} {B : Type κ} (m : Handler F A) (f : A → Handler F B)
      → Preserves F R m
      → ((a : A) → Preserves F R (f a))
      → Preserves F R (m >>= f)
  unfolding ◌>>=◌ Preserves
  bind-Preserves m f g h w =
      chain w.disk (m w).1.disk (continue (m w).0 f (m w).1).1.disk (g w)
        (continue-Preserves (m w).0 f h (m w).1)

  pub then-Preserves {ℓ κ} :
      {A : Type ℓ} {B : Type κ} (m : Handler F A) (n : Handler F B)
      → Preserves F R m
      → Preserves F R n
      → Preserves F R (m >> n)
  unfolding ◌>>◌ Preserves
  then-Preserves m n g h w =
      chain w.disk (m w).1.disk (continue (m w).0 (λ _. n) (m w).1).1.disk (g w)
        (continue-Preserves (m w).0 (λ _. n) (λ _. h) (m w).1)
