-- ===== src/Crc8/Reference.antt =====
-- The table against the polynomial x^8 + x^5 + x^4 + 1 that it tabulates.
use open_pgpcard_emu.Base.{
  ℕ, zero, suc, ◌*◌, ◌%◌, ◌<◌, bit_xor, ◌≡◌, refl, ap, ◌∙◌, List, [], ◌∷◌, arith, ◌==◌, ==_iff, ltb,
  if◌then◌else◌, AreBytes, true,
}
use open_pgpcard_emu.Base.Bits.{all_below, all_below_sound, bit_xor-lt}
use open_pgpcard_emu.Crc8.{crc8_entry, crc8_from, crc8}

-- One shift of an 8-bit register to the left, with the polynomial 0x31 on a carry.
unfoldable pub shift_bit : ℕ → ℕ
shift_bit r = if ltb r 128 then r * 2 else bit_xor (r * 2 % 256) 0x31

-- `n` shifts.
unfoldable pub shift_bits : ℕ → ℕ → ℕ
unfolding shift_bit
shift_bits zero r = r
shift_bits (suc n) r = shift_bits n (shift_bit r)

-- The CRC bit by bit, with no table.
unfoldable pub crc8_bitwise : ℕ → List ℕ → ℕ
unfolding shift_bits
crc8_bitwise r [] = r
crc8_bitwise r (b ∷ bytes) = crc8_bitwise (shift_bits 8 (bit_xor r b)) bytes

table_checked : all_below 256 (λ x. crc8_entry x == shift_bits 8 x) ≡ true
unfolding all_below crc8_entry shift_bits
table_checked = refl

crc8_entry-shift_bits : (x : ℕ) → x < 256 → crc8_entry x ≡ shift_bits 8 x
crc8_entry-shift_bits x h = (==_iff _ _).0 (all_below_sound 256 _ x table_checked h)

entry_checked : all_below 256 (λ x. ltb (crc8_entry x) 256) ≡ true
unfolding all_below crc8_entry
entry_checked = refl

ltb→lt : (a b : ℕ) → ltb a b ≡ true → a < b
ltb→lt a b h = ground arith

pub crc8_entry-lt : (x : ℕ) → x < 256 → crc8_entry x < 256
crc8_entry-lt x h = ltb→lt _ _ (all_below_sound 256 _ x entry_checked h)

-- The register stays a byte.
pub crc8_from-lt : (r : ℕ) (bytes : List ℕ) → r < 256 → AreBytes bytes → crc8_from r bytes < 256
unfolding crc8_from
crc8_from-lt r [] h bs = h
crc8_from-lt r (b ∷ bytes) h bs =
    crc8_from-lt (crc8_entry (bit_xor r b)) bytes
      (crc8_entry-lt (bit_xor r b) (bit_xor-lt r b h bs.0)) bs.1

crc8_from-crc8_bitwise :
    (r : ℕ) (bytes : List ℕ) → r < 256 → AreBytes bytes → crc8_from r bytes ≡ crc8_bitwise r bytes
unfolding crc8_from crc8_bitwise
crc8_from-crc8_bitwise r [] h bs = refl
crc8_from-crc8_bitwise r (b ∷ bytes) h bs =
    crc8_from-crc8_bitwise (crc8_entry (bit_xor r b)) bytes
      (crc8_entry-lt (bit_xor r b) (bit_xor-lt r b h bs.0)) bs.1
    ∙ ap (λ t. crc8_bitwise t bytes) (crc8_entry-shift_bits (bit_xor r b) (bit_xor-lt r b h bs.0))

-- On every string of bytes the table-driven CRC is the bitwise division by the polynomial
-- x^8 + x^5 + x^4 + 1, started at 0xFF.
pub crc8-crc8_bitwise : (bytes : List ℕ) → AreBytes bytes → crc8 bytes ≡ crc8_bitwise 0xFF bytes
unfolding crc8
crc8-crc8_bitwise bytes bs = crc8_from-crc8_bitwise 0xFF bytes (omega arith) bs
