-- ===== src/Ctbcs.antt =====
-- The display and PIN commands of OpenCTDriver/src/ifd/ctbcs.c, built in a byte buffer.
pub mod Tracks
pub mod Build
use open_pgpcard_emu.Base.{
  to_int, ℕ, zero, suc, ◌+◌, ◌-◌, ◌%◌, ◌^◌, Bool, true, false, List, [], ◌∷◌, ◌==◌, ltb,
  if◌then◌else◌, ℤ, pos, negsuc, Option, none, some, length, take, write_at,
}
use open_pgpcard_emu.Atr.{error_buffer_too_small}
use open_pgpcard_emu.Buffer.{Buf, init, avail, sub32, overran, put, putc}

abbrev pub error_invalid_arg : ℤ
error_invalid_arg = negsuc 8

-- `ct_buf_putc`, of which the result is not read
unfoldable pub append : ℕ → Buf → Buf
unfolding putc
append byte b = (putc byte b).1

unfoldable pub begin : ℕ → ℕ → ℕ → Buf → Buf
begin ins p1 p2 b = append 0 (append p2 (append p1 (append ins (append 0x20 b))))

-- The result, and the memory that was written.
unfoldable pub finish : Buf → ℤ × List ℕ
unfolding overran avail
finish b =
    if overran b
    then (error_buffer_too_small, b.base)
    else (to_int (avail b), write_at b.base 4 (sub32 (avail b) 5 % 256 ∷ []))

-- A tag, a length byte and the bytes themselves.
unfoldable pub add_field : ℕ → ℕ → List ℕ → Buf → Buf
unfolding append put
add_field tag n bytes b = (put bytes (append n (append tag b))).1

unfoldable pub add_timeout : ℕ → Buf → ℤ × Buf
unfolding add_field avail
add_timeout timeout b =
    if timeout == 0
    then (pos 0, b)
    else let b' = append timeout (append 1 (append 0x80 b)) in (to_int (avail b'), b')

-- `strcmp(message, "@")` gives 0.
abbrev pub is_at : List ℕ → Bool
is_at [] = false
is_at (c ∷ []) = c == 64
is_at (c ∷ d ∷ rest) = false

-- `n` of `ctbcs_add_message`
abbrev pub shown : List ℕ → ℕ
shown message = if ltb 32 (length message) then 32 else length message

-- `none` is the null pointer.
unfoldable pub add_message : Option (List ℕ) → Buf → ℤ × Buf
unfolding add_field avail
add_message none b = (pos 0, b)
add_message (some message) b =
    if is_at message
    then (pos 0, b)
    else let b' = add_field 0x50 (shown message) (take (shown message) message) b in
      (to_int (avail b'), b')

-- `cmd` is the caller's memory of `size` bytes; the result comes with what it holds then.
unfoldable pub build_output : List ℕ → ℕ → Option (List ℕ) → ℤ × List ℕ
unfolding init begin add_message finish
build_output cmd size none = (error_invalid_arg, cmd)
build_output cmd size (some message) =
    finish ((add_message (some message) (begin 0x17 0x40 0 (init cmd size))).1)

-- `data` and `data_len` are the last argument; the empty list stands for a null pointer too.
unfoldable pub build_verify_apdu : List ℕ → ℕ → ℕ → ℕ → Option (List ℕ) → ℕ → List ℕ → ℤ × List ℕ
unfolding init begin add_timeout add_message add_field finish
build_verify_apdu cmd size ins p1 prompt timeout [] = (error_invalid_arg, cmd)
build_verify_apdu cmd size ins p1 none timeout (d ∷ rest) = (error_invalid_arg, cmd)
build_verify_apdu cmd size ins p1 (some prompt) timeout (d ∷ rest) =
    let b = begin (ins % 256) (p1 % 256) 0 (init cmd size) in
    let b' = (add_message (some prompt) ((add_timeout timeout b).1)).1 in
    finish (add_field 0x52 (suc (length rest)) (d ∷ rest) b')

unfoldable pub build_perform_verify_apdu :
    List ℕ → ℕ → ℕ → Option (List ℕ) → ℕ → List ℕ → ℤ × List ℕ
unfolding build_verify_apdu
build_perform_verify_apdu cmd size p1 prompt timeout pin =
    build_verify_apdu cmd size 0x18 p1 prompt timeout pin

unfoldable pub build_modify_verify_apdu : List ℕ → ℕ → ℕ → Option (List ℕ) → ℕ → List ℕ → ℤ × List ℕ
unfolding build_verify_apdu
build_modify_verify_apdu cmd size p1 prompt timeout pin =
    build_verify_apdu cmd size 0x19 p1 prompt timeout pin
