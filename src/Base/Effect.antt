-- ===== src/Base/Effect.antt =====
-- Functions that change a state and may fail: `io::Result` with the state passed along. What was
-- changed before a failure stays changed.
use mathlib.Core.Path.{◌≡◌, refl}
use mathlib.Core.Option.{Option, none, some}
use mathlib.Core.Logic.{inl, inr}
use remote_file_system_in_ru.Base.Results.{Result-cases, Result, ok, err, map_err}

abbrev pub Effect {ℓ κ μ} : Type ℓ → Type κ → Type μ → Type (ℓ ⊔ κ ⊔ μ)
Effect S E A = S → Result E A × S

module _ {ℓ κ} {S : Type ℓ} {E : Type κ} where
  abbrev pub continue {μ ν} :
      {A : Type μ} {B : Type ν} → Result E A → (A → Effect S E B) → Effect S E B
  continue (ok a) f s = f a s
  continue (err e) f s = (err e, s)

  infixl 5 ◌>>=◌ ◌>>◌
  unfoldable pub ◌>>=◌ {μ ν} :
      {A : Type μ} {B : Type ν} → Effect S E A → (A → Effect S E B) → Effect S E B
  ◌>>=◌ m f s = let (r, s') = m s in continue r f s'

  unfoldable pub ◌>>◌ {μ ν} : {A : Type μ} {B : Type ν} → Effect S E A → Effect S E B → Effect S E B
  ◌>>◌ m n s = let (r, s') = m s in continue r (λ _. n) s'

  unfoldable pub pure {μ} : {A : Type μ} → A → Effect S E A
  pure a s = (ok a, s)

  unfoldable pub fail {μ} : {A : Type μ} → E → Effect S E A
  fail e s = (err e, s)

  unfoldable pub lift {μ} : {A : Type μ} → Result E A → Effect S E A
  lift r s = (r, s)

-- The rest of a chain runs on what the first effect answers and leaves.
pub bind-ok {ℓ κ μ ν} :
    {S : Type ℓ} {E : Type κ} {A : Type μ} {B : Type ν} (m : Effect S E A) (f : A → Effect S E B)
    (s t : S) (a : A)
    → m s ≡ (ok a, t)
    → (m >>= f) s ≡ f a t
unfolding ◌>>=◌
bind-ok m f s t a e = rw (e, ◌>>=◌) refl

-- A chain stops where its first effect fails.
module _ {ℓ κ μ ν} {S : Type ℓ} {E : Type κ} {A : Type μ} {B : Type ν} (m : Effect S E A) (s t : S)
    (e : E) (failed : m s ≡ (err e, t)) where
  pub bind-err : (f : A → Effect S E B) → (m >>= f) s ≡ (err e, t)
  unfolding ◌>>=◌
  bind-err f = rw (failed, ◌>>=◌) refl

  pub seq-err : (n : Effect S E B) → (m >> n) s ≡ (err e, t)
  unfolding ◌>>◌
  seq-err n = rw (failed, ◌>>◌) refl

-- What holds of the state behind a chain: the chain stops after the first effect, or runs on.
module _ {ℓ κ μ ν π} {S : Type ℓ} {E : Type κ} {A : Type μ} {B : Type ν} (P : S → Type π)
    (m : Effect S E A) (s : S) (stopped : (e : E) → (m s).0 ≡ err e → P (m s).1) where
  pub bind-after :
      (f : A → Effect S E B) → ((a : A) → (m s).0 ≡ ok a → P (f a (m s).1).1) → P ((m >>= f) s).1
  unfolding ◌>>=◌
  bind-after f more = elim (Result-cases (m s).0) [
    | inl (a, e) ↦ rw (e, ◌>>=◌) (more a e)
    | inr (x, e) ↦ rw (e, ◌>>=◌) (stopped x e)
  ]

  pub seq-after :
      (n : Effect S E B) → ((a : A) → (m s).0 ≡ ok a → P (n (m s).1).1) → P ((m >> n) s).1
  unfolding ◌>>◌
  seq-after n more = elim (Result-cases (m s).0) [
    | inl (a, e) ↦ rw (e, ◌>>◌) (more a e)
    | inr (x, e) ↦ rw (e, ◌>>◌) (stopped x e)
  ]

-- What holds of every answer of the rest holds of the answer of the chain.
pub bind-answer {ℓ κ μ ν π} :
    {S : Type ℓ} {E : Type κ} {A : Type μ} {B : Type ν} (P : B → Type π) (m : Effect S E A)
    (f : A → Effect S E B)
    → ((a : A) (t : S) (b : B) → (f a t).0 ≡ ok b → P b)
    → (s : S) (b : B) → ((m >>= f) s).0 ≡ ok b
    → P b
unfolding ◌>>=◌
bind-answer P m f rest s b h = elim (Result-cases (m s).0) [
  | inl (a, e) ↦ rest a (m s).1 b (rw (e, ◌>>=◌) at h)
  | inr (x, e) ↦ absurd (let q = rw (e, ◌>>=◌) at h in cc)
]

-- `let _ = …`: a failure is passed over.
unfoldable pub ignore {ℓ κ κ' μ} :
    {S : Type ℓ} {E : Type κ} {E' : Type κ'} {A : Type μ} → Effect S E A → Effect S E' (Unit {0})
ignore m s = let (r, s') = m s in (ok tt, s')

-- What an effect does, with its result kept whole: the match on a result that does not return.
unfoldable pub attempt {ℓ κ κ' μ} :
    {S : Type ℓ} {E : Type κ} {E' : Type κ'} {A : Type μ} → Effect S E A → Effect S E' (Result E A)
attempt m s = let (r, s') = m s in (ok r, s')

unfoldable pub map_error {ℓ κ κ' μ} :
    {S : Type ℓ} {E : Type κ} {E' : Type κ'} {A : Type μ} → (E → E') → Effect S E A → Effect S E' A
map_error f m s = let (r, s') = m s in (map_err f r, s')

-- `match` on a value that a chain has bound.
unfoldable pub match_option {ℓ κ} : {A : Type ℓ} {B : Type κ} → Option A → B → (A → B) → B
match_option none b f = b
match_option (some a) b f = f a

unfoldable pub match_result {ℓ κ μ} :
    {E : Type ℓ} {A : Type κ} {B : Type μ} → Result E A → (A → B) → (E → B) → B
match_result (ok a) f g = f a
match_result (err e) f g = g e
