-- ===== src/T1/Received.antt =====
-- `t1_xcv` of proto-t1.c when the card's block comes whole, over a serial line or in one piece.
use open_pgpcard_emu.Base.{
  ℕ, ◌+◌, ◌*◌, ◌%◌, ◌^◌, ◌≤◌, ◌≡◌, refl, ap, ◌∙◌, Bool, true, false, List, [], ◌∷◌, arith, ltb, leb,
  if◌then◌else◌, length, take, write_at, get_or, pos, negsuc, ℤ,
}
use open_pgpcard_emu.Base.Write.{get_or-write_at}
use open_pgpcard_emu.T1.Block.{T1, rc_bytes, t1_buffer_size}
use open_pgpcard_emu.T1.Bounds.{rc_bytes-le}
use open_pgpcard_emu.T1.Channel.{Driver, send_command, xcv, xcv_block, xcv_serial}
use open_pgpcard_emu.T1.Frames.{frame, length-frame, received_lem}
use open_pgpcard_emu.T1.Talk.{Comes, Exchanges}

module _ {S : Type 0} (drv : Driver S) (t : T1) (timeout nad pcb : ℕ) (bytes block : List ℕ)
    (s s' : S) (within : length bytes ≤ t.ifsd) (small : t.ifsd ≤ 253)
    (room : length block ≡ t1_buffer_size) where
  xcv_block-comes :
      Comes drv t true s nad pcb bytes s'
      → xcv_block drv t t1_buffer_size timeout block s ≡ (
        pos (length (frame t.csum nad pcb bytes)),
        write_at block 0 (frame t.csum nad pcb bytes),
        s',
      )
  unfolding xcv_block
  xcv_block-comes comes =
      let y = frame t.csum nad pcb bytes in
      let size = length-frame t.csum nad pcb bytes in
      let few = rc_bytes-le t.csum in
      let rlen = (3 + t.ifsd + rc_bytes t.csum + 1) % 2 ^ 32 in
      let asked = if ltb rlen t1_buffer_size then rlen else t1_buffer_size in
      let enough : length y ≤ asked = ground arith in
      let (_, _, count, _, _) = received_lem t.csum nad pcb bytes block (omega arith) in
      let exact : ltb (length bytes + 3 + rc_bytes t.csum) (length y) ≡ false = ground arith in
      let finish : ℤ × List ℕ × S → ℤ × List ℕ × S = λ o.
        let w = write_at block 0 o.1 in
        elim o.0 [
          | negsuc e ↦ (negsuc e, w, o.2)
          | pos n ↦
              let m = get_or w 2 0 + 3 + rc_bytes t.csum in (pos (if ltb m n then m else n), w, o.2)
        ] in
      ap finish (comes asked enough timeout) ∙ rw (count, exact) refl

  xcv_serial-comes :
      Comes drv t false s nad pcb bytes s'
      → xcv_serial drv t t1_buffer_size timeout block s ≡ (
        pos (length (frame t.csum nad pcb bytes)),
        write_at block 0 (frame t.csum nad pcb bytes),
        s',
      )
  unfolding xcv_serial
  xcv_serial-comes (s₁, header, tail) =
      let size = length-frame t.csum nad pcb bytes in
      let few = rc_bytes-le t.csum in
      let start = nad ∷ pcb ∷ length bytes ∷ [] in
      let count : get_or (write_at block 0 start) 2 0 ≡ length bytes =
        get_or-write_at block 0 start 2 (omega arith) (omega arith) in
      let no_overflow : ltb t1_buffer_size (length bytes + rc_bytes t.csum + 3) ≡ false =
        ground arith in
      let short : leb 254 (length bytes) ≡ false = ground arith in
      let total : length bytes + rc_bytes t.csum + 3 ≡ length (frame t.csum nad pcb bytes) =
        omega arith in
      rw (header timeout, count, no_overflow, short, tail t.timeout, total) refl

  received :
      (oriented : Bool)
      → Comes drv t oriented s nad pcb bytes s'
      → (if oriented
          then xcv_block drv t t1_buffer_size timeout block s
          else xcv_serial drv t t1_buffer_size timeout block s)
        ≡ (
          pos (length (frame t.csum nad pcb bytes)),
          write_at block 0 (frame t.csum nad pcb bytes),
          s',
        )
  received true comes = xcv_block-comes comes
  received false comes = xcv_serial-comes comes

-- The command is sent and the answer comes: its length, the buffer with it, and the waiting time
-- extension used up.
pub Exchanges-xcv :
    {S : Type 0} (drv : Driver S) (t : T1) (nad pcb : ℕ) (bytes request block : List ℕ) (slen : ℕ)
    (s s' : S)
    → t.ifsd ≤ 253
    → length block ≡ t1_buffer_size
    → take slen block ≡ request
    → Exchanges drv t s request nad pcb bytes s'
    → xcv drv t block slen t1_buffer_size s ≡ (
      (
        pos (length (frame t.csum nad pcb bytes)),
        write_at block 0 (frame t.csum nad pcb bytes),
        s',
      ),
      record t { wtx = 0 },
    )
unfolding xcv
Exchanges-xcv {S} drv t nad pcb bytes request block slen s s' small room ready
      (within, k, s₁, sent, comes) =
    let timeout = (t.timeout + 1000 * t.wtx) % 2 ^ 32 in
    let t' = record t { wtx = 0 } in
    let receive : S → ℤ × List ℕ × S = λ port.
      if t.block_oriented
      then xcv_block drv t' t1_buffer_size timeout block port
      else xcv_serial drv t' t1_buffer_size timeout block port in
    let finish : ℤ × S → (ℤ × List ℕ × S) × T1 =
      λ o. elim o.0 [ negsuc e ↦ ((negsuc e, block, o.1), t) | pos _ ↦ (receive o.1, t') ] in
    ap (λ (b : List ℕ). finish (send_command drv s b)) ready
    ∙ ap finish sent
    ∙ ap (λ (o : ℤ × List ℕ × S). (o, t'))
        (received drv t' timeout nad pcb bytes block s₁ s' within small room t.block_oriented comes)
