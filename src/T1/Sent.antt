-- ===== src/T1/Sent.antt =====
-- What `t1_build` leaves in the block buffer, in `t1_transceive` of proto-t1.c.
use open_pgpcard_emu.Base.{
  ℕ, ◌+◌, ◌%◌, ◌<◌, ◌≤◌, ◌≡◌, refl, ◌∙◌, Bool, true, false, List, [], ◌∷◌, arith, ltb,
  if◌then◌else◌, length, take, Option, none, some, bit_or, write_at, length-write_at, Bool-cases,
  inl, inr,
}
use open_pgpcard_emu.Buffer
use open_pgpcard_emu.Buffer.{Buf}
use open_pgpcard_emu.Buffer.Queue.{IsBuf}
use open_pgpcard_emu.T1.Block.{
  T1, Csum, checksum, block_type, with_seq, build, built, compute_checksum, i_block, more_blocks,
  t1_buffer_size,
}
use open_pgpcard_emu.T1.Bounds.{build-built, built-fits}
use open_pgpcard_emu.T1.Transceive.{Xfer, reply, send_next}

length-write_at_twice :
    (block header bytes : List ℕ) (c : Csum) (len : ℕ)
    → length (compute_checksum c len (write_at (write_at block 0 header) 3 bytes)) ≡ length block
unfolding compute_checksum
length-write_at_twice block header bytes c len =
    let headed = write_at block 0 header in
    let filled = write_at headed 3 bytes in
    length-write_at filled len (checksum c (take len filled))
    ∙ length-write_at headed 3 bytes
    ∙ length-write_at block 0 header

pub length-built :
    (t : T1) (dad pcb : ℕ) (bp : Option Buf) (block : List ℕ)
    → length (built t dad pcb bp block).2 ≡ length block
unfolding built compute_checksum
length-built t dad pcb none block =
    let pcb' = if ltb t.ifsc 0 then bit_or pcb more_blocks else pcb in
    let len = if ltb t.ifsc 0 then t.ifsc else 0 in
    length-write_at_twice block (dad % 256 ∷ with_seq (block_type pcb') t pcb' ∷ len % 256 ∷ []) []
      t.csum (len + 3)
length-built t dad pcb (some b) block =
    let all = Buffer.avail b in
    let pcb' = if ltb t.ifsc all then bit_or pcb more_blocks else pcb in
    let len = if ltb t.ifsc all then t.ifsc else all in
    length-write_at_twice block (dad % 256 ∷ with_seq (block_type pcb') t pcb' ∷ len % 256 ∷ [])
      (Buffer.head_bytes b len) t.csum (len + 3)

-- The answer's buffer is well-ordered and has the caller's size.
abbrev pub IsRoom : ℕ → Buf → Type 0
IsRoom n b = IsBuf b × (b.size ≡ n)

-- So is the answer's buffer, and the block buffer has its size.
abbrev pub IsWhole : {S : Type 0} → ℕ → Xfer S → Type 0
IsWhole n x = IsRoom n x.rbuf × (length x.sdata ≡ t1_buffer_size)

-- The next block is made, behind its buffer only with an information field size above 254.
abbrev pub IsNext : {S : Type 0} → ℕ → Xfer S → Type 0
IsNext n x = IsWhole n x × (x.overran ≡ true → 254 < x.t1.ifsc)

abbrev Built : Type 0
Built = ℕ × ℕ × List ℕ

length-build :
    (t : T1) (dad pcb : ℕ) (bp : Option Buf) (block : List ℕ)
    → length (elim (build t dad pcb bp block) as (λ _. List ℕ) [ none ↦ block | some out ↦ out.2 ])
      ≡ length block
unfolding build
length-build t dad pcb bp block =
    elim (Bool-cases (ltb (length block) (built t dad pcb bp block).0)) [
      | inl over ↦ rw over refl
      | inr within ↦ rw within (length-built t dad pcb bp block)
    ]

build_overran :
    (t : T1) (dad pcb : ℕ) (bp : Option Buf) (block : List ℕ)
    → length block ≡ t1_buffer_size
    → elim (build t dad pcb bp block) as (λ _. Bool) [ none ↦ true | some out ↦ false ] ≡ true
    → 254 < t.ifsc
build_overran t dad pcb bp block size over = elim (Bool-cases (ltb 254 t.ifsc)) [
  | inl large ↦ ground arith
  | inr small ↦
      let short : t.ifsc ≤ 254 = ground arith in
      let made =
        build-built t dad pcb bp block (omega (arith, built-fits t dad pcb bp block short)) in
      absurd (no_overrun (build t dad pcb bp block) (built t dad pcb bp block) made over)
]
  where
    no_overrun :
        (o : Option Built) (v : Built)
        → o ≡ some v
        → elim o as (λ _. Bool) [ none ↦ true | some out ↦ false ] ≡ true
        → ⊥
    no_overrun none v e over' = ground arith
    no_overrun (some out) v e over' = ground arith

module _ {S : Type 0} where
  pub reply-IsNext :
      (n dad pcb : ℕ) (bp : Option Buf) (x : Xfer S) → IsWhole n x → IsNext n (reply dad pcb bp x)
  unfolding reply
  reply-IsNext n dad pcb bp x (room, size) = (
    (room, length-build x.t1 dad pcb bp x.sdata ∙ size),
    build_overran x.t1 dad pcb bp x.sdata size,
  )

  pub send_next-IsNext : (n dad : ℕ) (x : Xfer S) → IsWhole n x → IsNext n (send_next dad x)
  unfolding send_next
  send_next-IsNext n dad x (room, size) = (
    (room, length-build x.t1 dad i_block (some x.sbuf) x.sdata ∙ size),
    build_overran x.t1 dad i_block (some x.sbuf) x.sdata size,
  )
