-- ===== src/Tlv/Ints.antt =====
-- The integers of OpenCTDriver/src/ct/tlv.c.
use open_pgpcard_emu.Base.{ℕ, ◌^◌, ◌≤◌, ◌<◌, ◌≡◌, refl, false, arith, none}
use open_pgpcard_emu.Tlv.Builder.{Builder, int_digits, put_int}

int_digits-large : (value : ℕ) → 2 ^ 24 ≤ value → int_digits 3 0 value ≡ none
unfolding int_digits
int_digits-large value large = ground arith

-- `ct_tlv_put_int` of a value of at least 2^24, which an `unsigned int` holds, has no defined
-- result, whatever the tag: its loop shifts the value by 32.
put_int-undefined :
    (tag value : ℕ) (w : Builder)
    → w.error ≡ false
    → 2 ^ 24 ≤ value
    → value < 2 ^ 32
    → put_int tag value w ≡ none
unfolding put_int
put_int-undefined tag value w fine large fits = rw (fine, int_digits-large value large) refl
