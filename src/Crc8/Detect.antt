-- ===== src/Crc8/Detect.antt =====
-- What the CRC detects: a change of any one byte, be it in the data or in the CRC itself.
use open_pgpcard_emu.Base.{
  ℕ, zero, suc, ◌<◌, bit_xor, ◌≡◌, ◌≢◌, refl, sym, ap, ◌∙◌, List, [], ◌∷◌, ◌++◌, arith, ◌==◌,
  ==_iff, AreBytes, true,
}
use open_pgpcard_emu.Base.Bits.{
  all_below, all_below_sound, bit_xor-lt, bit_xor_cancel, bit_xor_comm,
}
use open_pgpcard_emu.Crc8.{crc8_entry, crc8_from, crc8}
use open_pgpcard_emu.Crc8.Reference.{crc8_entry-lt, crc8_from-lt}

-- The inverse of the table: the entry `x` such that `crc8_entry x` is the argument.
find_entry : ℕ → ℕ → ℕ
find_entry zero v = 0
find_entry (suc n) v = elim (crc8_entry n == v) [ true ↦ n | _ ↦ find_entry n v ]

inverse_checked : all_below 256 (λ x. find_entry 256 (crc8_entry x) == x) ≡ true
unfolding all_below crc8_entry find_entry
inverse_checked = refl

-- The table is injective.
crc8_entry-injective : (x y : ℕ) → x < 256 → y < 256 → crc8_entry x ≡ crc8_entry y → x ≡ y
crc8_entry-injective x y hx hy e =
    sym ((==_iff _ _).0 (all_below_sound 256 _ x inverse_checked hx))
    ∙ ap (find_entry 256) e
    ∙ (==_iff _ _).0 (all_below_sound 256 _ y inverse_checked hy)

xor-injective : (a b c : ℕ) → a < 256 → b < 256 → c < 256 → bit_xor a c ≡ bit_xor b c → a ≡ b
xor-injective a b c ha hb hc e =
    sym (bit_xor_cancel a c ha hc) ∙ ap (λ t. bit_xor t c) e ∙ bit_xor_cancel b c hb hc

-- Distinct registers stay distinct over the same bytes.
pub crc8_from-injective :
    (r s : ℕ) (bytes : List ℕ)
    → r < 256
    → s < 256
    → AreBytes bytes
    → crc8_from r bytes ≡ crc8_from s bytes
    → r ≡ s
unfolding crc8_from
crc8_from-injective r s [] hr hs bs e = e
crc8_from-injective r s (b ∷ bytes) hr hs bs e = xor-injective r s b hr hs bs.0 (
    crc8_entry-injective (bit_xor r b) (bit_xor s b) (bit_xor-lt r b hr bs.0)
      (bit_xor-lt s b hs bs.0)
      (crc8_from-injective (crc8_entry (bit_xor r b)) (crc8_entry (bit_xor s b)) bytes
        (crc8_entry-lt (bit_xor r b) (bit_xor-lt r b hr bs.0))
        (crc8_entry-lt (bit_xor s b) (bit_xor-lt s b hs bs.0)) bs.1 e))

crc8_from-append : (r : ℕ) (xs ys : List ℕ) → crc8_from r (xs ++ ys) ≡ crc8_from (crc8_from r xs) ys
unfolding crc8_from
crc8_from-append r [] ys = refl
crc8_from-append r (x ∷ xs) ys = crc8_from-append (crc8_entry (bit_xor r x)) xs ys

-- One step from the same register tells two bytes apart.
entry_step-injective :
    (r a b : ℕ)
    → r < 256
    → a < 256
    → b < 256
    → crc8_entry (bit_xor r a) ≡ crc8_entry (bit_xor r b)
    → a ≡ b
entry_step-injective r a b hr ha hb e = xor-injective a b r ha hb hr (
    bit_xor_comm a r ha hr
    ∙ crc8_entry-injective (bit_xor r a) (bit_xor r b) (bit_xor-lt r a hr ha) (bit_xor-lt r b hr hb)
        e
    ∙ bit_xor_comm r b hr hb)

-- Two byte strings that differ in exactly one byte have different CRCs, wherever the byte stands.
pub crc8-ne_of_one_byte :
    (before : List ℕ) (a b : ℕ) (after : List ℕ)
    → AreBytes before
    → a < 256
    → b < 256
    → AreBytes after
    → a ≢ b
    → crc8 (before ++ a ∷ after) ≢ crc8 (before ++ b ∷ after)
unfolding crc8 crc8_from
crc8-ne_of_one_byte before a b after hs ha hb hs' ne e = ne (
    entry_step-injective r a b hr ha hb (
      crc8_from-injective (crc8_entry (bit_xor r a)) (crc8_entry (bit_xor r b)) after
        (crc8_entry-lt (bit_xor r a) (bit_xor-lt r a hr ha))
        (crc8_entry-lt (bit_xor r b) (bit_xor-lt r b hr hb)) hs'
        (sym (crc8_from-append 0xFF before (a ∷ after))
          ∙ e
          ∙ crc8_from-append 0xFF before (b ∷ after))))
  where
    r : ℕ
    r = crc8_from 0xFF before

    hr : r < 256
    hr = crc8_from-lt 0xFF before (omega arith) hs
