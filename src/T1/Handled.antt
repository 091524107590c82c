-- ===== src/T1/Handled.antt =====
-- What `t1_transceive` of proto-t1.c does with each block of a card that keeps to the protocol.
use open_pgpcard_emu.Base.{
  ℕ, zero, suc, ◌+◌, ◌-◌, ◌%◌, ◌^◌, ◌≤◌, ◌<◌, ◌≡◌, ◌≢◌, refl, ap, ◌∙◌, sym, true, false, List, [],
  ◌∷◌, arith, ◌==◌, ◌!=◌, if◌then◌else◌, length, length-drop, get_or, none, some, bit_and, bit_xor,
}
use open_pgpcard_emu.Base.Slice.{slice}
use open_pgpcard_emu.Buffer
use open_pgpcard_emu.Buffer.{Buf}
use open_pgpcard_emu.Buffer.Queue.{IsBuf, content, put-appends, get-drops, avail-content}
use open_pgpcard_emu.T1.Block.{
  T1, Phase, sending, receiving, seq, r_block, s_response, more_blocks, t1_buffer_size,
}
use open_pgpcard_emu.T1.Talk.{sent_wtx}
use open_pgpcard_emu.T1.Transceive.{
  Xfer, finished, pcb_of, reply, send_next, acknowledge, splendid, on_i_block, on_r_block,
  on_s_block, on_s_request, respond,
}

-- The buffers: the block buffer, the bytes that the card has not acknowledged, and the answer so far.
pub record IsLoaded (S : Type 0) (room : ℕ) (rest got : List ℕ) (x : Xfer S) : Type 0 where
  pub block : length x.sdata ≡ t1_buffer_size
  pub sbuf : IsBuf x.sbuf
  pub left : content x.sbuf ≡ rest
  pub rbuf : IsBuf x.rbuf
  pub size : x.rbuf.size ≡ room
  pub held : content x.rbuf ≡ got
  pub front : x.rbuf.head ≡ 0
  pub within : x.overran ≡ false

-- A block with these fields lies at the start of the block buffer.
pub record HasBlock (S : Type 0) (pcb : ℕ) (bytes : List ℕ) (x : Xfer S) : Type 0 where
  pub byte : pcb_of x ≡ pcb
  pub count : get_or x.sdata 2 0 ≡ length bytes
  pub body : slice 3 (length bytes) x.sdata ≡ bytes
  pub short : length bytes ≤ 253

-- The state of the protocol in a talk: what changes of `t`.
abbrev pub live : T1 → Phase → ℕ → ℕ → ℕ → T1
live t phase ns nr wtx = record t { phase = phase; ns = ns; nr = nr; wtx = wtx }

-- `^= 1` on a sequence number
pub flip_lem : (n : ℕ) → n < 2 → bit_xor n 1 ≡ 1 - n
flip_lem zero small = refl
flip_lem (suc zero) small = refl
flip_lem (suc (suc n)) small = absurd (omega arith)

module _ {S : Type 0} (t : T1) (ns nr wtx dad pcb : ℕ) (bytes : List ℕ) (room : ℕ)
    (rest got : List ℕ) (x : Xfer S) (loaded : IsLoaded S room rest got x)
    (has : HasBlock S pcb bytes x) (bit_s : ns < 2) (bit_r : nr < 2) where
  open loaded use {sbuf, left, rbuf, size, held}
  open has use {byte, count, body, short}

  -- An I-block with the number that is due goes to the answer.
  pub on_i_block-receiving :
      seq pcb ≡ nr
      → length got + length bytes ≤ room
      → let z = record x {
        t1 = live t receiving ns (1 - nr) wtx;
        rbuf = (Buffer.put bytes x.rbuf).1;
      } in
        on_i_block dad (record x { t1 = live t receiving ns nr wtx })
        ≡ (if bit_and pcb more_blocks == 0 then finished z else splendid (reply dad r_block none z))
  unfolding on_i_block
  on_i_block-receiving due fits =
      let fine = put-appends bytes x.rbuf rbuf (omega arith) (omega (arith, ap length held)) in
      let same : (nr != nr) ≡ false = ground arith in
      rw (byte, due, same, count, body, fine.0, flip_lem nr bit_r) refl

  -- The first I-block of the answer acknowledges the last one of the command too.
  pub on_i_block-sending :
      seq pcb ≡ nr
      → length got + length bytes ≤ room
      → let z = record x {
        t1 = live t receiving (1 - ns) (1 - nr) wtx;
        sbuf = (Buffer.get x.last_send x.sbuf).2;
        rbuf = (Buffer.put bytes x.rbuf).1;
        last_send = 0;
      } in
        on_i_block dad (record x { t1 = live t sending ns nr wtx })
        ≡ (if bit_and pcb more_blocks == 0 then finished z else splendid (reply dad r_block none z))
  unfolding on_i_block acknowledge
  on_i_block-sending due fits =
      let fine = put-appends bytes x.rbuf rbuf (omega arith) (omega (arith, ap length held)) in
      let same : (nr != nr) ≡ false = ground arith in
      rw (byte, due, same, count, body, fine.0, flip_lem ns bit_s, flip_lem nr bit_r) refl

  -- An R-block with the other number acknowledges the last block and asks for the next.
  pub on_r_block-next :
      bit_and pcb 0x0F ≡ 0
      → seq pcb ≢ ns
      → x.last_send < length rest
      → let y = record x {
        t1 = live t sending (1 - ns) nr wtx;
        sbuf = (Buffer.get x.last_send x.sbuf).2;
        last_send = 0;
        sent_length = (x.sent_length + x.last_send) % 2 ^ 32;
      } in
        on_r_block dad (record x { t1 = live t sending ns nr wtx }) ≡ splendid (send_next dad y)
  unfolding on_r_block acknowledge
  on_r_block-next no_error other more =
      let n = x.last_send in
      let (_, _, wf, rest') = get-drops n x.sbuf sbuf (omega (arith, ap length left)) in
      let left' = avail-content (Buffer.get n x.sbuf).2 wf in
      let count' = length-drop n (content x.sbuf) in
      let some_left : (Buffer.avail (Buffer.get n x.sbuf).2 == 0) ≡ false =
        ground (arith, ap length rest', ap length left) in
      let new_block : (seq pcb != ns) ≡ true = ground arith in
      rw (byte, no_error, new_block, some_left, flip_lem ns bit_s) refl

  -- A request for more time is granted.
  pub on_s_block-wtx :
      (info : ℕ) (ph : Phase) (rcv : List ℕ)
      → bytes ≡ info ∷ []
      → bit_and pcb s_response ≡ 0
      → bit_and pcb 0x0F ≡ 3
      → on_s_block dad rcv (record x { t1 = live t ph ns nr wtx })
        ≡ splendid (
            reply dad sent_wtx
              (some (Buffer.put (info ∷ []) (Buffer.init (0 ∷ 0 ∷ 0 ∷ 0 ∷ 0 ∷ []) 5)).1)
              (record x { t1 = live t ph ns nr info }))
  unfolding on_s_block on_s_request respond slice
  on_s_block-wtx info ph rcv one request kind =
      let value : get_or x.sdata 3 0 ≡ info =
        ap (λ (l : List ℕ). get_or (slice 3 (length l) x.sdata) 0 0) (sym one)
        ∙ ap (λ (l : List ℕ). get_or l 0 0) body
        ∙ ap (λ (l : List ℕ). get_or l 0 0) one in
      rw (byte, request, kind, value) refl
