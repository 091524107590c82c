-- ===== src/T1/Frames.antt =====
-- The blocks of proto-t1.c as strings of bytes: what the host puts on the line, and what it finds
-- in its buffer when the card has sent one.
use open_pgpcard_emu.Base.{
  ℕ, ◌+◌, ◌-◌, ◌%◌, bit_or, ◌≤◌, ◌≡◌, refl, ap, ◌∙◌, sym, true, false, List, [], ◌∷◌, ◌++◌, arith,
  ltb, if◌then◌else◌, none, some, take, drop, write_at, length, get_or, length-write_at,
  length-append, take-append, append_assoc, take_all, Bool-cases, inl, inr,
}
use open_pgpcard_emu.Base.Slice.{slice, length-slice, slice-append}
use open_pgpcard_emu.Base.Write.{take-write_at, write_at-zero, take-slice}
use open_pgpcard_emu.Buffer.{Buf, head_bytes}
use open_pgpcard_emu.Buffer.Queue.{IsBuf, content, avail-content}
use open_pgpcard_emu.T1.Block.{
  T1, Csum, rc_bytes, checksum, compute_checksum, verify_checksum, built, with_seq, block_type,
  more_blocks,
}
use open_pgpcard_emu.T1.Bounds.{length-checksum, same_bytes_refl, rc_bytes-le}

-- The node address, the protocol byte, the length, and what is sent.
abbrev pub block_body : ℕ → ℕ → List ℕ → List ℕ
block_body nad pcb bytes = nad ∷ pcb ∷ length bytes ∷ bytes

-- A block on the line.
abbrev pub frame : Csum → ℕ → ℕ → List ℕ → List ℕ
frame c nad pcb bytes = block_body nad pcb bytes ++ checksum c (block_body nad pcb bytes)

pub length-frame :
    (c : Csum) (nad pcb : ℕ) (bytes : List ℕ)
    → length (frame c nad pcb bytes) ≡ 3 + length bytes + rc_bytes c
length-frame c nad pcb bytes = omega (
  arith,
  length-append (block_body nad pcb bytes) (checksum c (block_body nad pcb bytes)),
  length-checksum c (block_body nad pcb bytes),
)

-- `t1_compute_checksum` behind the header and the bytes of a block.
pub compute-frame :
    (c : Csum) (nad pcb : ℕ) (bytes block : List ℕ)
    → 3 + length bytes + rc_bytes c ≤ length block
    → let filled = write_at (write_at block 0 (nad ∷ pcb ∷ length bytes ∷ [])) 3 bytes in
      take (3 + length bytes + rc_bytes c) (compute_checksum c (3 + length bytes) filled)
      ≡ frame c nad pcb bytes
unfolding compute_checksum
compute-frame c nad pcb bytes block fits =
    let header = nad ∷ pcb ∷ length bytes ∷ [] in
    let headed = write_at block 0 header in
    let filled = write_at headed 3 bytes in
    let m = 3 + length bytes in
    let same₁ = length-write_at block 0 header in
    let same₂ = length-write_at headed 3 bytes in
    let front : take m filled ≡ block_body nad pcb bytes =
      take-write_at headed 3 bytes (omega arith)
      ∙ ap (λ (l : List ℕ). l ++ bytes) (take-write_at block 0 header (omega arith)) in
    let sum = checksum c (take m filled) in
    let size : length sum ≡ rc_bytes c = length-checksum c (take m filled) in
    ap (λ (k : ℕ). take (m + k) (write_at filled m sum)) (sym size)
    ∙ take-write_at filled m sum (omega arith)
    ∙ ap (λ (l : List ℕ). l ++ checksum c l) front

-- `t1_build` without data.
pub built-frame_empty :
    (t : T1) (dad pcb : ℕ) (block : List ℕ)
    → 5 ≤ length block
    → let out = built t dad pcb none block in
      take out.0 out.2 ≡ frame t.csum (dad % 256) (with_seq (block_type pcb) t pcb) []
unfolding built
built-frame_empty t dad pcb block room =
    let none_left : ltb t.ifsc 0 ≡ false = ground arith in
    rw none_left (
      compute-frame t.csum (dad % 256) (with_seq (block_type pcb) t pcb) [] block
        (omega (arith, rc_bytes-le t.csum)))

-- What fits of the unread bytes, as the code reads them.
chunk_lem :
    (k : ℕ) (b : Buf)
    → let n = length (content b) in
      take k (content b) ≡ slice b.head (if ltb k n then k else n) b.base
chunk_lem k b =
    let size = length-slice b.head (b.tail - b.head) b.base in
    elim (Bool-cases (ltb k (length (content b)))) [
      | inl more ↦
          let within : k ≤ b.tail - b.head = ground arith in
          rw more (take-slice b.head k (b.tail - b.head) b.base within)
      | inr last ↦
          let within : length (content b) ≤ k = ground arith in
          rw last (take_all k (content b) within ∙ ap (λ (m : ℕ). slice b.head m b.base) (sym size))
    ]

-- `compute-frame` for a length that is kept in a byte of its own.
counted-frame :
    (c : Csum) (nad pcb len : ℕ) (bytes block : List ℕ)
    → len ≡ length bytes
    → len ≤ 254
    → 259 ≤ length block
    → take (len + 3 + rc_bytes c) (
        compute_checksum c
          (len + 3)
          (write_at (write_at block 0 (nad ∷ pcb ∷ len % 256 ∷ [])) 3 bytes))
      ≡ frame c nad pcb bytes
counted-frame c nad pcb len bytes block same short room =
    let byte : len % 256 ≡ length bytes = omega arith in
    let headed : len + 3 ≡ 3 + length bytes = omega arith in
    rw (headed, byte) (compute-frame c nad pcb bytes block (omega (arith, rc_bytes-le c)))

-- `t1_build` with data takes what fits of the unread bytes, and its protocol byte says whether there
-- are more.
pub built-frame :
    (t : T1) (dad pcb : ℕ) (b : Buf) (block : List ℕ)
    → IsBuf b
    → t.ifsc ≤ 254
    → 259 ≤ length block
    → let out = built t dad pcb (some b) block in
      let pcb' = if ltb t.ifsc (length (content b)) then bit_or pcb more_blocks else pcb in
      let bytes = take t.ifsc (content b) in
      (take out.0 out.2 ≡ frame t.csum (dad % 256) (with_seq (block_type pcb') t pcb') bytes)
      × (out.1 ≡ length bytes)
unfolding built head_bytes
built-frame t dad pcb b block wf small room =
    let count = avail-content b wf in
    let n = length (content b) in
    let len = if ltb t.ifsc n then t.ifsc else n in
    let pcb' = if ltb t.ifsc n then bit_or pcb more_blocks else pcb in
    let size : len ≡ length (slice b.head len b.base) = sym (length-slice b.head len b.base) in
    rw (count, chunk_lem t.ifsc b)
      (
        counted-frame t.csum (dad % 256) (with_seq (block_type pcb') t pcb') len
            (slice b.head len b.base) block size (ground arith) room,
        size,
      )

-- What was received stands at the start of the buffer and passes the test of its checksum.
verify-append :
    (c : Csum) (body tail : List ℕ)
    → verify_checksum c (length body + rc_bytes c) ((body ++ checksum c body) ++ tail) ≡ true
unfolding verify_checksum
verify-append c body tail =
    let sum = checksum c body in
    let size : length sum ≡ rc_bytes c = length-checksum c body in
    let long : ltb (length body + rc_bytes c) (rc_bytes c) ≡ false = ground arith in
    let front : length body + rc_bytes c - rc_bytes c ≡ length body = omega arith in
    let read : slice (length body) (rc_bytes c) (body ++ (sum ++ tail)) ≡ sum =
      ap (λ (k : ℕ). slice (length body) k (body ++ (sum ++ tail))) (sym size)
      ∙ slice-append body sum tail in
    rw (long, front, append_assoc body sum tail, take-append body (sum ++ tail), read)
      (same_bytes_refl sum)

-- The buffer after a block has come: its checksum is right, and its fields are where they are read.
pub received_lem :
    (c : Csum) (nad pcb : ℕ) (bytes block : List ℕ)
    → length (frame c nad pcb bytes) ≤ length block
    → let w = write_at block 0 (frame c nad pcb bytes) in
      (verify_checksum c (length (frame c nad pcb bytes)) w ≡ true)
      × (get_or w 1 0 ≡ pcb)
      × (get_or w 2 0 ≡ length bytes)
      × (slice 3 (length bytes) w ≡ bytes)
      × (length w ≡ length block)
received_lem c nad pcb bytes block fits =
    let y = frame c nad pcb bytes in
    let sum = checksum c (block_body nad pcb bytes) in
    let rest = drop (length y) block in
    let whole : write_at block 0 y ≡ y ++ rest = write_at-zero block y fits in
    let size : length y ≡ length (block_body nad pcb bytes) + rc_bytes c =
      omega (arith, length-frame c nad pcb bytes) in
    let same = length-write_at block 0 y in
    let data_bytes : slice 3 (length bytes) (y ++ rest) ≡ bytes =
      ap (slice 3 (length bytes)) (append_assoc (block_body nad pcb bytes) sum rest)
      ∙ slice-append (nad ∷ pcb ∷ length bytes ∷ []) bytes (sum ++ rest) in
    let all = ap length whole in
    rw (whole, size)
      (verify-append c (block_body nad pcb bytes) rest, refl, refl, data_bytes, sym all ∙ same)
