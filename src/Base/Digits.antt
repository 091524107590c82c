-- ===== src/Base/Digits.antt =====
-- The bitwise operations by binary digits: what a XOR does to the bytes of a number, and the AND
-- with 0xFF.
use Prim.Native.Nat.{
  ℕ, zero, suc, ◌+◌, ◌*◌, ◌/◌, ◌%◌, ◌<◌, ◌≤◌, bit_and, bit_or, bit_xor, min, max, digits, differ,
  bit_xor-bitwise, bit_and-bitwise, bit_or-bitwise,
}
use mathlib.Core.Path.{◌≡◌, refl, ap₂, ◌∙◌}
use native.Mathlib.Omega.{arith}

-- The recursion on binary digits does not depend on its fuel.
module _ (z : ℕ → ℕ) (f : ℕ → ℕ → ℕ) where
  digits-fuel : (n m a b : ℕ) → a ≤ n → a ≤ m → digits z f n a b ≡ digits z f m a b
  digits-fuel zero zero a b p q = refl
  digits-fuel zero (suc m) zero b p q = refl
  digits-fuel zero (suc m) (suc a) b p q = absurd (omega arith)
  digits-fuel (suc n) zero zero b p q = refl
  digits-fuel (suc n) zero (suc a) b p q = absurd (omega arith)
  digits-fuel (suc n) (suc m) zero b p q = refl
  digits-fuel (suc n) (suc m) (suc a) b p q =
      rw (digits-fuel n m (suc a / 2) (b / 2) (omega arith) (omega arith))

differ-lt : (x y : ℕ) → x < 2 → y < 2 → differ x y < 2
differ-lt zero y hx hy = hy
differ-lt (suc x) zero hx hy = hx
differ-lt (suc zero) (suc y) hx hy = omega arith
differ-lt (suc (suc x)) (suc y) hx hy = absurd (omega arith)

bit_xor-digit : (a b : ℕ) → bit_xor a b ≡ bit_xor (a / 2) (b / 2) * 2 + differ (a % 2) (b % 2)
bit_xor-digit zero b = simp bit_xor-bitwise (omega arith)
bit_xor-digit (suc a) b = simp bit_xor-bitwise (
    omega (
      arith,
      digits-fuel (λ x. x) differ a (suc a / 2) (suc a / 2) (b / 2) (omega arith) (omega arith),
    ))

bit_xor-half : (a b : ℕ) → bit_xor a b / 2 ≡ bit_xor (a / 2) (b / 2)
bit_xor-half a b =
    omega (arith, bit_xor-digit a b, differ-lt (a % 2) (b % 2) (omega arith) (omega arith))

bit_xor-quarter : (a b : ℕ) → bit_xor a b / 4 ≡ bit_xor (a / 4) (b / 4)
bit_xor-quarter a b =
    omega (arith, bit_xor-half a b, bit_xor-half (a / 2) (b / 2))
    ∙ ap₂ bit_xor {x = a / 2 / 2} {y = a / 4} {u = b / 2 / 2} {v = b / 4} (omega arith)
        (omega arith)

bit_xor-nibble : (a b : ℕ) → bit_xor a b / 16 ≡ bit_xor (a / 16) (b / 16)
bit_xor-nibble a b =
    omega (arith, bit_xor-quarter a b, bit_xor-quarter (a / 4) (b / 4))
    ∙ ap₂ bit_xor {x = a / 4 / 4} {y = a / 16} {u = b / 4 / 4} {v = b / 16} (omega arith)
        (omega arith)

pub bit_xor-byte : (a b : ℕ) → bit_xor a b / 256 ≡ bit_xor (a / 256) (b / 256)
bit_xor-byte a b =
    omega (arith, bit_xor-nibble a b, bit_xor-nibble (a / 16) (b / 16))
    ∙ ap₂ bit_xor {x = a / 16 / 16} {y = a / 256} {u = b / 16 / 16} {v = b / 256} (omega arith)
        (omega arith)

min-digit : (x : ℕ) → x < 2 → min x 1 ≡ x
min-digit zero h = refl
min-digit (suc zero) h = refl
min-digit (suc (suc x)) h = absurd (omega arith)

bit_and-digit : (a b : ℕ) → bit_and a b ≡ bit_and (a / 2) (b / 2) * 2 + min (a % 2) (b % 2)
bit_and-digit zero b = simp bit_and-bitwise (omega arith)
bit_and-digit (suc a) b = simp bit_and-bitwise (
    omega (
      arith,
      digits-fuel (λ _. 0) min a (suc a / 2) (suc a / 2) (b / 2) (omega arith) (omega arith),
    ))

-- An AND with ones in the lowest digit and `m` above.
bit_and-one : (m a : ℕ) → bit_and a (m * 2 + 1) ≡ bit_and (a / 2) m * 2 + a % 2
bit_and-one m a =
    bit_and-digit a (m * 2 + 1)
    ∙ ap₂ (λ x y. bit_and (a / 2) x * 2 + min (a % 2) y) {x = (m * 2 + 1) / 2} {y = m}
        {u = (m * 2 + 1) % 2} {v = 1} (omega arith) (omega arith)
    ∙ omega (arith, min-digit (a % 2) (omega arith))

digits-zero : (n a : ℕ) → digits (λ _. 0) min n a 0 ≡ 0
digits-zero zero a = refl
digits-zero (suc n) zero = refl
digits-zero (suc n) (suc a) = omega (arith, digits-zero n (suc a / 2))

bit_and-zero : (a : ℕ) → bit_and a 0 ≡ 0
bit_and-zero a = simp bit_and-bitwise (digits-zero a a)

pub bit_and-byte : (v : ℕ) → bit_and v 0xFF ≡ v % 256
bit_and-byte v = omega (
  arith,
  bit_and-one 127 v,
  bit_and-one 63 (v / 2),
  bit_and-one 31 (v / 2 / 2),
  bit_and-one 15 (v / 2 / 2 / 2),
  bit_and-one 7 (v / 2 / 2 / 2 / 2),
  bit_and-one 3 (v / 2 / 2 / 2 / 2 / 2),
  bit_and-one 1 (v / 2 / 2 / 2 / 2 / 2 / 2),
  bit_and-one 0 (v / 2 / 2 / 2 / 2 / 2 / 2 / 2),
  bit_and-zero (v / 2 / 2 / 2 / 2 / 2 / 2 / 2 / 2),
)

le-max : (x y : ℕ) → y ≤ max x y
le-max zero y = omega arith
le-max (suc x) zero = omega arith
le-max (suc x) (suc y) = omega (arith, le-max x y)

le-digits : (n a b : ℕ) → b ≤ digits (λ x. x) max n a b
le-digits zero a b = omega arith
le-digits (suc n) zero b = omega arith
le-digits (suc n) (suc a) b =
    omega (arith, le-digits n (suc a / 2) (b / 2), le-max (suc a % 2) (b % 2))

pub le-bit_or : (a b : ℕ) → b ≤ bit_or a b
le-bit_or a b = simp bit_or-bitwise (le-digits a a b)
