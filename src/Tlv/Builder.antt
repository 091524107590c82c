-- ===== src/Tlv/Builder.antt =====
-- The functions that build tag-length-value data in a buffer.
use open_pgpcard_emu.Base.{
  ℕ, zero, suc, ◌+◌, ◌/◌, ◌%◌, ◌^◌, bit_or, Bool, true, false, List, [], ◌∷◌, ◌==◌, ltb,
  if◌then◌else◌, Option, none, some, set, length, is_neg,
}
use open_pgpcard_emu.Buffer.{Buf, put, putc}
use open_pgpcard_emu.Tlv.Parser.{tag_large}

-- `ct_tlv_builder_t`. `error` is its sign: it is only ever 0 or -1. `lenp` is the index of the
-- length field in the memory of the buffer.
pub record Builder : Type 0 where
  pub error : Bool
  pub use_large_tags : Bool
  pub buf : Buf
  pub len : ℕ
  pub lenp : Option ℕ

unfoldable pub init : Buf → Bool → Builder
init b large = record { error = false; use_large_tags = large; buf = b; len = 0; lenp = none }

-- `ct_buf_putc` for one byte of the header; on an error the flag is set.
unfoldable pub put_header_byte : ℕ → Builder → Builder
unfolding putc
put_header_byte byte w =
    let (r, b) = putc byte w.buf in
    if is_neg r then record w { buf = b; error = true } else record w { buf = b }

unfoldable pub put_tag : ℕ → Builder → Builder
unfolding put_header_byte
put_tag tag w =
    if w.error
    then w
    else let w₁ = put_header_byte (if w.use_large_tags then bit_or tag tag_large else tag) w in
      if w₁.error
      then w₁
      else let w₂ = put_header_byte 0 (record w₁ { len = 0; lenp = some w₁.buf.tail }) in
        if w₂.error then w₂ else if w₂.use_large_tags then put_header_byte 0 w₂ else w₂

-- The length field behind `lenp`, and the limits on the length.
unfoldable pub write_length : ℕ → Builder → Builder
write_length at w =
    if w.use_large_tags
    then (if ltb 65535 w.len then record w { error = true } else record w {
      buf = record w.buf { base = set (set w.buf.base at (w.len / 256)) (at + 1) (w.len % 256) };
    })
    else if ltb 266 w.len
    then record w { error = true }
    else record w { buf = record w.buf { base = set w.buf.base at (w.len % 256) } }

unfoldable pub add_bytes : List ℕ → Builder → Builder
unfolding put write_length
add_bytes bytes w = if w.error then w else elim w.lenp [
  | none ↦ record w { error = true }
  | some at ↦
      let (r, b) = put bytes w.buf in
      let w' = record w { buf = b; len = (w.len + length bytes) % 2 ^ 32 } in
      if is_neg r then record w' { error = true } else write_length at w'
]

unfoldable pub add_byte : ℕ → Builder → Builder
unfolding add_bytes
add_byte byte w = add_bytes (byte % 256 ∷ []) w

unfoldable pub put_opaque : ℕ → List ℕ → Builder → Builder
unfolding put_tag add_bytes
put_opaque tag bytes w =
    if w.error then w else record (add_bytes bytes (put_tag tag w)) { lenp = none }

-- The string without its NUL.
unfoldable pub put_string : ℕ → List ℕ → Builder → Builder
unfolding put_opaque
put_string tag string w = put_opaque tag string w

-- `for (n = 0; (value >> (n + 8)) != 0; n += 8)`, as the number `n / 8`. A shift of an
-- `unsigned int` by 32 has no defined result: `none`.
unfoldable pub int_digits : ℕ → ℕ → ℕ → Option ℕ
int_digits zero n value = none
int_digits (suc left) n value =
    let rest = int_digits left (n + 1) value in if value / 256 ^ (n + 1) == 0 then some n else rest

-- `do { … } while (n >= 0)`
unfoldable pub put_digits : ℕ → ℕ → Builder → Builder
unfolding add_byte
put_digits zero value w = add_byte (value % 256) w
put_digits (suc n) value w = put_digits n value (add_byte (value / 256 ^ suc n % 256) w)

unfoldable pub put_int : ℕ → ℕ → Builder → Option Builder
unfolding int_digits put_digits put_tag
put_int tag value w = if w.error then some w else elim (int_digits 3 0 value) [
  | none ↦ none
  | some n ↦ some (record (put_digits n value (put_tag tag w)) { lenp = none })
]
