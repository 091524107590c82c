-- ===== src/Base/Int.antt =====
-- Signed integers, as far as return codes use them, over the native numbers.
use Prim.Native.Nat.{ℕ, ◌-◌, ◌^◌, ◌<◌}
use mathlib.Core.Path.{◌≡◌}
use native.Mathlib.Omega.{arith}
use open_pgpcard_emu.Base.Tests.{ltb, if◌then◌else◌}
use mathlib.Core.Bool.{Bool, true, false}

-- `negsuc n` is -(n + 1).
pub data ℤ : Type 0 where
  pos : ℕ → ℤ
  negsuc : ℕ → ℤ

abbrev pub is_neg : ℤ → Bool
is_neg (pos n) = false
is_neg (negsuc n) = true

-- An `unsigned int` or a `size_t` below 2^32 returned as an `int`.
abbrev pub to_int : ℕ → ℤ
to_int n = if ltb n (2 ^ 31) then pos n else negsuc (2 ^ 32 - 1 - n)

pub to_int-pos : (n : ℕ) → n < 2 ^ 31 → to_int n ≡ pos n
to_int-pos n small = ground arith
