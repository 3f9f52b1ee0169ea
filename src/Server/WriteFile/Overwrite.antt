-- ===== src/Server/WriteFile/Overwrite.antt =====
-- Two writes, one behind the other, are one write of both.
use remote_file_system_in_ru.Base.{
  ℕ, zero, suc, ◌+◌, ◌≡◌, refl, sym, ◌∙◌, ap, [], ◌∷◌, ◌++◌, length, append-nil, arith,
}
use remote_file_system_in_ru.Base.Bytes.{Bytes}
use remote_file_system_in_ru.FileSystem.Laws.{overwrite}

pub overwrite-nil : (p : ℕ) (old : Bytes) → overwrite p [] old ≡ old
unfolding overwrite
overwrite-nil zero old = refl
overwrite-nil (suc p) old = refl

overwrite-end : (a b : Bytes) → overwrite (length a) b a ≡ a ++ b
unfolding overwrite
overwrite-end [] [] = refl
overwrite-end [] (y ∷ b) = refl
overwrite-end (x ∷ a) [] = ap (◌∷◌ x) (sym (append-nil a))
overwrite-end (x ∷ a) (y ∷ b) = ap (◌∷◌ x) (overwrite-end a (y ∷ b))

overwrite-behind :
    (a b old : Bytes) → overwrite (length a) b (overwrite zero a old) ≡ overwrite zero (a ++ b) old
unfolding overwrite
overwrite-behind [] b old = refl
overwrite-behind (x ∷ a) b [] = overwrite-end (x ∷ a) b
overwrite-behind (x ∷ a) [] (o ∷ old) =
    ap (λ bytes. x ∷ overwrite zero bytes old) (sym (append-nil a))
overwrite-behind (x ∷ a) (y ∷ b) (o ∷ old) = ap (◌∷◌ x) (overwrite-behind a (y ∷ b) old)

pub overwrite-overwrite :
    (p : ℕ) (a b old : Bytes)
    → overwrite (p + length a) b (overwrite p a old) ≡ overwrite p (a ++ b) old
unfolding overwrite
overwrite-overwrite zero a b old =
    let e : 0 + length a ≡ length a = omega arith in
    ap (λ k. overwrite k b (overwrite zero a old)) e ∙ overwrite-behind a b old
overwrite-overwrite (suc p) [] b old =
    let e : suc p + 0 ≡ suc p = omega arith in ap (λ k. overwrite k b old) e
overwrite-overwrite (suc p) (x ∷ a) [] old =
    overwrite-nil (suc p + length (x ∷ a)) _
    ∙ ap (λ bytes. overwrite (suc p) (x ∷ bytes) old) (sym (append-nil a))
overwrite-overwrite (suc p) (x ∷ a) (y ∷ b) [] =
    let e : suc p + length (x ∷ a) ≡ suc (p + length (x ∷ a)) = omega arith in
    ap (λ k. overwrite k (y ∷ b) (overwrite (suc p) (x ∷ a) [])) e
    ∙ ap (◌∷◌ 0) (overwrite-overwrite p (x ∷ a) (y ∷ b) [])
overwrite-overwrite (suc p) (x ∷ a) (y ∷ b) (o ∷ old) =
    let e : suc p + length (x ∷ a) ≡ suc (p + length (x ∷ a)) = omega arith in
    ap (λ k. overwrite k (y ∷ b) (overwrite (suc p) (x ∷ a) (o ∷ old))) e
    ∙ ap (◌∷◌ o) (overwrite-overwrite p (x ∷ a) (y ∷ b) old)
