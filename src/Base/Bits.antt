-- ===== src/Base/Bits.antt =====
-- Facts about bytes, checked by evaluation over all values.
use Prim.Native.Nat.{ℕ, zero, suc, ◌*◌, ◌/◌, ◌%◌, ◌<◌, bit_and, bit_or, bit_xor}
use mathlib.Core.Path.{◌≡◌, refl}
use mathlib.Core.Bool.{Bool, true, ◌&&◌}
use native.Mathlib.Omega.{arith}
use open_pgpcard_emu.Base.{◌==◌, ==_iff, ltb, List, [], ◌∷◌, get_or, AreBytes}

-- Does the test succeed for all numbers below the bound?
unfoldable pub all_below : ℕ → (ℕ → Bool) → Bool
all_below zero test = true
all_below (suc bound) test = all_below bound test && test bound

pub all_below_sound :
    (bound : ℕ) (test : ℕ → Bool) (k : ℕ) → all_below bound test ≡ true → k < bound → test k ≡ true
unfolding all_below
all_below_sound zero test k checked small = absurd (omega arith)
all_below_sound (suc bound) test k checked small = ground (arith, all_below_sound bound test k)

-- `x & 0xE0` and `x & 0x1F`, the two fields of a message header.
high_table : all_below 256 (λ x. bit_and x 0xE0 == x / 32 * 32) ≡ true
unfolding all_below
high_table = refl

low_table : all_below 256 (λ x. bit_and x 0x1F == x % 32) ≡ true
unfolding all_below
low_table = refl

pub bit_and-high : (x : ℕ) → x < 256 → bit_and x 0xE0 ≡ x / 32 * 32
bit_and-high x h = (==_iff _ _).0 (all_below_sound 256 _ x high_table h)

pub bit_and-low : (x : ℕ) → x < 256 → bit_and x 0x1F ≡ x % 32
bit_and-low x h = (==_iff _ _).0 (all_below_sound 256 _ x low_table h)

join_table : all_below 256 (λ x. bit_or (x / 32 * 32) (x % 32) == x) ≡ true
unfolding all_below
join_table = refl

pub bit_or-fields : (x : ℕ) → x < 256 → bit_or (x / 32 * 32) (x % 32) ≡ x
bit_or-fields x h = (==_iff _ _).0 (all_below_sound 256 _ x join_table h)

-- Two bytes make a byte, and the second is taken off again.
xor_test : ℕ → ℕ → Bool
xor_test a b = (ltb (bit_xor a b) 256 && bit_xor (bit_xor a b) b == a) && bit_xor a b == bit_xor b a

xor_table : all_below 256 (λ a. all_below 256 (xor_test a)) ≡ true
unfolding all_below xor_test
xor_table = refl

xor_checked : (a b : ℕ) → a < 256 → b < 256 → xor_test a b ≡ true
xor_checked a b ha hb = all_below_sound 256 (xor_test a) b (all_below_sound 256 _ a xor_table ha) hb

pub bit_xor-lt : (a b : ℕ) → a < 256 → b < 256 → bit_xor a b < 256
unfolding xor_test
bit_xor-lt a b ha hb = ground (arith, xor_checked a b ha hb)

pub bit_xor_cancel : (a b : ℕ) → a < 256 → b < 256 → bit_xor (bit_xor a b) b ≡ a
unfolding xor_test
bit_xor_cancel a b ha hb = ground (arith, xor_checked a b ha hb)

pub bit_xor_comm : (a b : ℕ) → a < 256 → b < 256 → bit_xor a b ≡ bit_xor b a
unfolding xor_test
bit_xor_comm a b ha hb = ground (arith, xor_checked a b ha hb)

digit_table : all_below 256 (λ x. ltb (bit_and x 0xF) 16) ≡ true
unfolding all_below
digit_table = refl

pub bit_and-digit-lt : (x : ℕ) → x < 256 → ltb (bit_and x 0xF) 16 ≡ true
bit_and-digit-lt x h = all_below_sound 256 (λ y. ltb (bit_and y 0xF) 16) x digit_table h

-- A byte agrees with itself in every digit.
self_table : all_below 256 (λ x. bit_xor x x == 0) ≡ true
unfolding all_below
self_table = refl

pub bit_xor_self : (x : ℕ) → x < 256 → bit_xor x x ≡ 0
bit_xor_self x h =
    (==_iff (bit_xor x x) 0).0 (all_below_sound 256 (λ y. bit_xor y y == 0) x self_table h)

pub get_or-lt : (xs : List ℕ) (i : ℕ) → AreBytes xs → get_or xs i 0 < 256
get_or-lt [] i h = omega arith
get_or-lt (x ∷ xs) zero h = h.0
get_or-lt (x ∷ xs) (suc i) h = get_or-lt xs i h.1
