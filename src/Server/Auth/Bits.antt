-- ===== src/Server/Auth/Bits.antt =====
-- When an exclusive or, and an or, of two numbers is zero.
use Prim.Native.Nat.{digits, differ, bit_or, bit_xor, bit_or-bitwise, bit_xor-bitwise}
use native.Mathlib.Nat.{le_refl}
use remote_file_system_in_ru.Base.{ℕ, zero, suc, ◌/◌, ◌%◌, ◌≤◌, max, ◌≡◌, ◌↔◌, refl, arith}

differ-eq-zero : (x y : ℕ) → (differ x y ≡ 0) ↔ (x ≡ y)
differ-eq-zero zero y = (λ h. omega arith, λ h. omega arith)
differ-eq-zero (suc x) zero = (λ h. omega arith, λ h. absurd (omega arith))
differ-eq-zero (suc x) (suc y) =
    (λ h. omega (arith, (differ-eq-zero x y).0 h), λ h. (differ-eq-zero x y).1 (omega arith))

xor_digits-eq-zero : (n a b : ℕ) → a ≤ n → (digits (λ y. y) differ n a b ≡ 0) ↔ (a ≡ b)
xor_digits-eq-zero zero zero b h = (λ p. omega arith, λ p. omega arith)
xor_digits-eq-zero zero (suc a) b h = absurd (omega arith)
xor_digits-eq-zero (suc n) zero b h = (λ p. omega arith, λ p. omega arith)
xor_digits-eq-zero (suc n) (suc a) b h =
    let rest = xor_digits-eq-zero n (suc a / 2) (b / 2) (omega arith) in
    let last = differ-eq-zero (suc a % 2) (b % 2) in
    (
      λ p. omega (arith, rest.0 (omega arith), last.0 (omega arith)),
      λ p. omega (arith, rest.1 (omega arith), last.1 (omega arith)),
    )

pub bit_xor-eq-zero : (a b : ℕ) → (bit_xor a b ≡ 0) ↔ (a ≡ b)
bit_xor-eq-zero a b = simp bit_xor-bitwise (xor_digits-eq-zero a a b (le_refl a))

or_digits-eq-zero : (n a b : ℕ) → a ≤ n → (digits (λ y. y) max n a b ≡ 0) ↔ ((a ≡ 0) × (b ≡ 0))
or_digits-eq-zero zero zero b h = (λ p. (refl, p), λ p. p.1)
or_digits-eq-zero zero (suc a) b h = absurd (omega arith)
or_digits-eq-zero (suc n) zero b h = (λ p. (refl, p), λ p. p.1)
or_digits-eq-zero (suc n) (suc a) b h =
    let rest = or_digits-eq-zero n (suc a / 2) (b / 2) (omega arith) in
    (λ p. absurd (let q = rest.0 (omega arith) in omega arith), λ p. absurd (omega arith))

pub bit_or-eq-zero : (a b : ℕ) → (bit_or a b ≡ 0) ↔ ((a ≡ 0) × (b ≡ 0))
bit_or-eq-zero a b = simp bit_or-bitwise (or_digits-eq-zero a a b (le_refl a))
