-- ===== src/Checksum/Reference.antt =====
-- The CRC table of OpenCTDriver/src/ifd/checksum.c against the polynomial x^16 + x^12 + x^5 + 1.
use open_pgpcard_emu.Base.{
  ℕ, zero, suc, ◌+◌, ◌*◌, ◌/◌, ◌%◌, ◌<◌, bit_xor, ◌≡◌, refl, ap, ap₂, ◌∙◌, List, [], ◌∷◌, arith,
  ◌==◌, ==_iff, ltb, if◌then◌else◌, AreBytes, true, Bool, ◌&&◌,
}
use open_pgpcard_emu.Base.Bits.{all_below, all_below_sound}
use open_pgpcard_emu.Base.Digits.{bit_and-byte, bit_xor-byte}
use open_pgpcard_emu.Checksum.{crc_entry, crc_step, crc_from, csum_crc_compute}

-- One shift of a 16-bit register to the right, with the reflected polynomial 0x8408 on a carry.
unfoldable pub shift_right : ℕ → ℕ
shift_right r = if (r % 2) == 0 then r / 2 else bit_xor (r / 2) 0x8408

unfoldable pub shifts_right : ℕ → ℕ → ℕ
unfolding shift_right
shifts_right zero r = r
shifts_right (suc n) r = shifts_right n (shift_right r)

-- The CRC bit by bit, with no table.
unfoldable pub crc_bitwise : ℕ → List ℕ → ℕ
unfolding shifts_right
crc_bitwise r [] = r
crc_bitwise r (b ∷ bytes) = crc_bitwise (shifts_right 8 (bit_xor r b)) bytes

-- What one step has to do to the register `256 * high + low`.
step_test : ℕ → ℕ → Bool
step_test high low =
    (bit_xor high (crc_entry low) == shifts_right 8 (high * 256 + low))
    && ltb (bit_xor high (crc_entry low)) 65536

steps_checked : all_below 256 (λ high. all_below 256 (step_test high)) ≡ true
unfolding all_below crc_entry shifts_right step_test
steps_checked = refl

step_sound :
    (high low : ℕ)
    → high < 256
    → low < 256
    → (bit_xor high (crc_entry low) ≡ shifts_right 8 (high * 256 + low))
      × (bit_xor high (crc_entry low) < 65536)
unfolding step_test
step_sound high low h l = ground (
  arith,
  all_below_sound 256 (step_test high) low
      (all_below_sound 256 (λ x. all_below 256 (step_test x)) high steps_checked h) l,
)

zero_checked : all_below 256 (λ x. bit_xor x 0 == x) ≡ true
unfolding all_below
zero_checked = refl

-- A byte changes the low half of a register only.
bit_xor-high : (v b : ℕ) → v < 65536 → b < 256 → bit_xor v b / 256 ≡ v / 256
bit_xor-high v b hv hb =
    bit_xor-byte v b
    ∙ ap (bit_xor (v / 256)) {x = b / 256} {y = 0} (omega arith)
    ∙ (==_iff _ _).0
        (all_below_sound 256 (λ x. bit_xor x 0 == x) (v / 256) zero_checked (omega arith))

-- One step of the routine is eight shifts of the register.
crc_step-shifts_right :
    (v b : ℕ)
    → v < 65536
    → b < 256
    → (crc_step v b ≡ shifts_right 8 (bit_xor v b)) × (crc_step v b < 65536)
unfolding crc_step
crc_step-shifts_right v b hv hb =
    let high = bit_xor-high v b hv hb in
    let sound = step_sound (v / 256) (bit_xor v b % 256) (omega arith) (omega arith) in
    let step : crc_step v b ≡ bit_xor (v / 256) (crc_entry (bit_xor v b % 256)) =
      ap₂ (λ x y. bit_xor x (crc_entry y)) (bit_and-byte (v / 256) ∙ omega arith)
        (bit_and-byte (bit_xor v b)) in
    (
      step
          ∙ sound.0
          ∙ ap (shifts_right 8) {x = v / 256 * 256 + bit_xor v b % 256} {y = bit_xor v b}
              (omega arith),
      rw (step) sound.1,
    )

crc_from-crc_bitwise :
    (v : ℕ) (bytes : List ℕ) → v < 65536 → AreBytes bytes → crc_from v bytes ≡ crc_bitwise v bytes
unfolding crc_from crc_bitwise
crc_from-crc_bitwise v [] h bs = refl
crc_from-crc_bitwise v (b ∷ bytes) h bs =
    let step = crc_step-shifts_right v b h bs.0 in
    crc_from-crc_bitwise (crc_step v b) bytes step.1 bs.1 ∙ ap (λ t. crc_bitwise t bytes) step.0

-- On every string of bytes `csum_crc_compute` stores, high byte first, the bitwise division by the
-- polynomial x^16 + x^12 + x^5 + 1 (reflected, 0x8408), started at 0xFFFF.
pub csum_crc_compute-crc_bitwise :
    (bytes : List ℕ)
    → AreBytes bytes
    → let v = crc_bitwise 0xFFFF bytes in csum_crc_compute bytes ≡ v / 256 % 256 ∷ v % 256 ∷ []
unfolding csum_crc_compute
csum_crc_compute-crc_bitwise bytes bs =
    let e = crc_from-crc_bitwise 0xFFFF bytes (omega arith) bs in
    ap₂ (λ x y. x ∷ y ∷ []) (bit_and-byte (crc_from 0xFFFF bytes / 256))
      (bit_and-byte (crc_from 0xFFFF bytes))
    ∙ ap (λ v. v / 256 % 256 ∷ v % 256 ∷ []) e
