-- ===== src/Base/Bits.antt =====
-- When `bit_or` and `bit_xor` of native numbers are zero.
use Prim.Native.Nat.{
  ℕ, zero, suc, ◌+◌, ◌*◌, ◌/◌, ◌%◌, ◌≤◌, max, digits, differ, bit_or, bit_or-bitwise, bit_xor,
  bit_xor-bitwise,
}
use mathlib.Core.Path.{◌≡◌, refl}
use native.Mathlib.Omega.{arith}

-- More fuel than the number needs changes nothing.
module _ (f : ℕ → ℕ → ℕ) where
  enough : (n m a b : ℕ) → a ≤ n → a ≤ m → digits (λ y. y) f n a b ≡ digits (λ y. y) f m a b
  enough zero zero a b p q = refl
  enough zero (suc m) zero b p q = refl
  enough zero (suc m) (suc a) b p q = absurd (omega arith)
  enough (suc n) zero zero b p q = refl
  enough (suc n) zero (suc a) b p q = absurd (omega arith)
  enough (suc n) (suc m) zero b p q = refl
  enough (suc n) (suc m) (suc a) b p q =
      omega (arith, enough n m (suc a / 2) (b / 2) (omega arith) (omega arith))

pub bit_or-zero : (b : ℕ) → bit_or 0 b ≡ b
bit_or-zero b = bit_or-bitwise 0 b

bit_xor-zero : (b : ℕ) → bit_xor 0 b ≡ b
bit_xor-zero b = bit_xor-bitwise 0 b

bit_or-suc : (a b : ℕ) → bit_or (suc a) b ≡ bit_or (suc a / 2) (b / 2) * 2 + max (suc a % 2) (b % 2)
bit_or-suc a b = omega (
  arith,
  bit_or-bitwise (suc a) b,
  bit_or-bitwise (suc a / 2) (b / 2),
  enough max a (suc a / 2) (suc a / 2) (b / 2) (omega arith) (omega arith),
)

bit_xor-suc :
    (a b : ℕ) → bit_xor (suc a) b ≡ bit_xor (suc a / 2) (b / 2) * 2 + differ (suc a % 2) (b % 2)
bit_xor-suc a b = omega (
  arith,
  bit_xor-bitwise (suc a) b,
  bit_xor-bitwise (suc a / 2) (b / 2),
  enough differ a (suc a / 2) (suc a / 2) (b / 2) (omega arith) (omega arith),
)

or_zero : (n a b : ℕ) → a ≤ n → bit_or a b ≡ 0 → (a ≡ 0) × (b ≡ 0)
or_zero n zero b h e = (refl, omega (arith, bit_or-zero b, e))
or_zero zero (suc a) b h e = absurd (omega arith)
or_zero (suc n) (suc a) b h e =
    let rest = or_zero n (suc a / 2) (b / 2) (omega arith) (omega (arith, bit_or-suc a b, e)) in
    absurd (omega (arith, bit_or-suc a b, e, rest.0))

differ_zero : (x y : ℕ) → differ x y ≡ 0 → x ≡ y
differ_zero zero y e = omega (arith, e)
differ_zero (suc x) zero e = absurd (omega (arith, e))
differ_zero (suc x) (suc y) e = omega (arith, differ_zero x y e)

xor_zero : (n a b : ℕ) → a ≤ n → bit_xor a b ≡ 0 → a ≡ b
xor_zero n zero b h e = omega (arith, bit_xor-zero b, e)
xor_zero zero (suc a) b h e = absurd (omega arith)
xor_zero (suc n) (suc a) b h e =
    let low = differ_zero (suc a % 2) (b % 2) (omega (arith, bit_xor-suc a b, e)) in
    let rest = xor_zero n (suc a / 2) (b / 2) (omega arith) (omega (arith, bit_xor-suc a b, e)) in
    omega (arith, low, rest)

differ_self : (x : ℕ) → differ x x ≡ 0
differ_self zero = refl
differ_self (suc x) = differ_self x

xor_self : (n a : ℕ) → a ≤ n → bit_xor a a ≡ 0
xor_self n zero h = bit_xor-zero 0
xor_self zero (suc a) h = absurd (omega arith)
xor_self (suc n) (suc a) h =
    omega
      (arith, bit_xor-suc a (suc a), xor_self n (suc a / 2) (omega arith), differ_self (suc a % 2))

pub bit_xor_self : (a : ℕ) → bit_xor a a ≡ 0
bit_xor_self a = xor_self a a (omega arith)

pub bit_or-eq-zero : (a b : ℕ) → bit_or a b ≡ 0 → (a ≡ 0) × (b ≡ 0)
bit_or-eq-zero a b e = or_zero a a b (omega arith) e

pub bit_xor-eq-zero : (a b : ℕ) → bit_xor a b ≡ 0 → a ≡ b
bit_xor-eq-zero a b e = xor_zero a a b (omega arith) e
