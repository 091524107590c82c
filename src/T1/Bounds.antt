-- ===== src/T1/Bounds.antt =====
-- The blocks that `t1_build` makes, in OpenCTDriver/src/ifd/proto-t1.c.
use open_pgpcard_emu.Base.{
  ℕ, ◌+◌, ◌-◌, ◌%◌, bit_or, ◌≤◌, ◌<◌, ◌≡◌, refl, ap, ◌∙◌, sym, true, false, List, [], ◌∷◌, arith,
  ltb, ==_refl, if◌then◌else◌, Option, none, some, take, write_at, length, length-write_at,
}
use open_pgpcard_emu.Base.Slice.{slice, slice-zero}
use open_pgpcard_emu.Base.Write.{slice-write_at, slice-write_at_before, slice-whole}
use open_pgpcard_emu.Buffer.{Buf, avail, head_bytes}
use open_pgpcard_emu.Checksum.{csum_lrc_compute, csum_crc_compute}
use open_pgpcard_emu.T1.Block.{
  T1, Csum, lrc, crc, rc_bytes, checksum, compute_checksum, same_bytes, verify_checksum, built,
  build, t1_buffer_size, block_type, with_seq, more_blocks,
}

pub length-checksum : (c : Csum) (bytes : List ℕ) → length (checksum c bytes) ≡ rc_bytes c
unfolding checksum csum_lrc_compute csum_crc_compute
length-checksum lrc bytes = refl
length-checksum crc bytes = refl

pub rc_bytes-le : (c : Csum) → rc_bytes c ≤ 2
rc_bytes-le lrc = omega arith
rc_bytes-le crc = omega arith

pub same_bytes_refl : (xs : List ℕ) → same_bytes xs xs ≡ true
unfolding same_bytes
same_bytes_refl [] = refl
same_bytes_refl (x ∷ xs) = rw (==_refl x) (same_bytes_refl xs)

-- What `t1_compute_checksum` wrote, `t1_verify_checksum` accepts.
compute-verify :
    (c : Csum) (m : ℕ) (block : List ℕ)
    → m + rc_bytes c ≤ length block
    → verify_checksum c (m + rc_bytes c) (compute_checksum c m block) ≡ true
unfolding verify_checksum compute_checksum
compute-verify c m block fits =
    let long : ltb (m + rc_bytes c) (rc_bytes c) ≡ false = ground arith in
    let front : m + rc_bytes c - rc_bytes c ≡ m = omega arith in
    rw (long, front, head_kept, tail_written) (same_bytes_refl sum)
  where
    sum : List ℕ
    sum = checksum c (take m block)

    whole : List ℕ
    whole = write_at block m sum

    head_kept : take m whole ≡ take m block
    head_kept =
        sym (slice-zero m whole (omega (arith, length-write_at block m sum)))
        ∙ slice-write_at_before 0 m block m sum (omega arith)
        ∙ slice-zero m block (omega arith)

    tail_written : slice m (rc_bytes c) whole ≡ sum
    tail_written =
        let n = length-checksum c (take m block) in
        slice-write_at block m sum (rc_bytes c) (omega (arith, n)) (omega (arith, n))
        ∙ ap (λ (k : ℕ). slice 0 k sum) {x = rc_bytes c} {y = length sum} (omega (arith, n))
        ∙ slice-whole sum

-- The number of bytes of the block that `t1_build` makes.
abbrev pub built_length : T1 → Option Buf → ℕ
built_length t bp =
    let all : ℕ = elim bp [ none ↦ 0 | some b ↦ avail b ] in
    (if ltb t.ifsc all then t.ifsc else all) + 3 + rc_bytes t.csum

-- The first three bytes, with `all` bytes to be sent.
abbrev block_header : T1 → ℕ → ℕ → ℕ → List ℕ
block_header t dad pcb all =
    let pcb₁ = if ltb t.ifsc all then bit_or pcb more_blocks else pcb in
    dad % 256
    ∷ with_seq (block_type pcb₁) t pcb₁
    ∷ (if ltb t.ifsc all then t.ifsc else all) % 256
    ∷ []

filled-verify :
    (c : Csum) (len : ℕ) (header body block : List ℕ)
    → len + 3 + rc_bytes c ≤ length block
    → verify_checksum c
        (len + 3 + rc_bytes c)
        (compute_checksum c (len + 3) (write_at (write_at block 0 header) 3 body))
      ≡ true
filled-verify c len header body block fits =
    compute-verify c (len + 3) (write_at (write_at block 0 header) 3 body) (
      omega
        (arith, length-write_at block 0 header, length-write_at (write_at block 0 header) 3 body))

built-verify :
    (t : T1) (dad pcb : ℕ) (bp : Option Buf) (block : List ℕ)
    → built_length t bp ≤ length block
    → let out = built t dad pcb bp block in verify_checksum t.csum out.0 out.2 ≡ true
unfolding built
built-verify t dad pcb none block fits =
    filled-verify t.csum (if ltb t.ifsc 0 then t.ifsc else 0) (block_header t dad pcb 0) [] block
      fits
built-verify t dad pcb (some b) block fits =
    let len = if ltb t.ifsc (avail b) then t.ifsc else avail b in
    filled-verify t.csum len (block_header t dad pcb (avail b)) (head_bytes b len) block fits

length-built :
    (t : T1) (dad pcb : ℕ) (bp : Option Buf) (block : List ℕ)
    → (built t dad pcb bp block).0 ≡ built_length t bp
unfolding built
length-built t dad pcb none block = refl
length-built t dad pcb (some b) block = refl

pub build-built :
    (t : T1) (dad pcb : ℕ) (bp : Option Buf) (block : List ℕ)
    → (built t dad pcb bp block).0 ≤ length block
    → build t dad pcb bp block ≡ some (built t dad pcb bp block)
unfolding build
build-built t dad pcb bp block fits =
    let room : ltb (length block) (built t dad pcb bp block).0 ≡ false = ground arith in
    rw room refl

-- A block that `t1_build` makes in a buffer with room for it passes `t1_verify_checksum`, with and
-- without data, with either checksum.
pub build-verify :
    (t : T1) (dad pcb : ℕ) (bp : Option Buf) (block : List ℕ)
    → built_length t bp ≤ length block
    → (out : ℕ × ℕ × List ℕ) × (build t dad pcb bp block ≡ some out)
      × (verify_checksum t.csum out.0 out.2 ≡ true)
build-verify t dad pcb bp block fits = (
  built t dad pcb bp block,
  build-built t dad pcb bp block (omega (arith, length-built t dad pcb bp block)),
  built-verify t dad pcb bp block fits,
)

-- With an information field size of at most 254 the block that `t1_build` makes fits the 259 bytes
-- of a block buffer.
pub built-fits :
    (t : T1) (dad pcb : ℕ) (bp : Option Buf) (block : List ℕ)
    → t.ifsc ≤ 254
    → (built t dad pcb bp block).0 ≤ t1_buffer_size
unfolding built
built-fits t dad pcb none block small = ground (arith, rc_bytes-le t.csum)
built-fits t dad pcb (some b) block small = ground (arith, rc_bytes-le t.csum)

-- With the information field size 255, which a card may ask for, the CRC and at least 255 bytes to
-- be sent, `t1_build` writes behind the 259 bytes of a block buffer.
pub build-overflows :
    (t : T1) (dad pcb : ℕ) (b : Buf) (block : List ℕ)
    → length block ≡ t1_buffer_size
    → t.ifsc ≡ 255
    → t.csum ≡ crc
    → 255 ≤ avail b
    → build t dad pcb (some b) block ≡ none
unfolding build built
build-overflows t dad pcb b block size large with_crc many =
    let long : t1_buffer_size < (built t dad pcb (some b) block).0 =
      ground (arith, ap rc_bytes with_crc) in
    let over : ltb (length block) (built t dad pcb (some b) block).0 ≡ true = ground arith in
    rw over refl
