-- ===== src/T1/Round.antt =====
-- One round of `t1_transceive` of proto-t1.c, up to the handler of the block that has come.
use open_pgpcard_emu.Base.{
  ℕ, suc, ◌+◌, ◌-◌, ◌%◌, ◌^◌, ◌≤◌, ◌≡◌, refl, ap, ap₂, ◌∙◌, sym, subst, List, ◌++◌, arith, length,
  take, ℤ, pos, negsuc, to_int, Bool, true, false, write_at,
}
use open_pgpcard_emu.Base.Slice.{slice, slice-zero, length-slice}
use open_pgpcard_emu.Buffer
use open_pgpcard_emu.Buffer.Queue.{IsBuf, content, put-grows, put-keeps, avail-content}
use open_pgpcard_emu.T1.Block.{T1, Phase, receiving, block_type}
use open_pgpcard_emu.T1.Bounds.{rc_bytes-le}
use open_pgpcard_emu.T1.Channel.{Driver}
use open_pgpcard_emu.T1.Talk.{IsFit, Exchanges}
use open_pgpcard_emu.T1.Frames.{frame, length-frame, received_lem}
use open_pgpcard_emu.T1.Received.{Exchanges-xcv}
use open_pgpcard_emu.T1.Handled.{IsLoaded, HasBlock, live}
use open_pgpcard_emu.T1.Ready.{IsReady, reblock}
use open_pgpcard_emu.T1.Transceive.{
  Xfer, Round, again, finished, failed, give_up, on_block, on_answer, round, rounds, Answer,
  answered, refused, overflow, overflowed,
}

module _ {S : Type 0} (drv : Driver S) (t : T1) (dad room : ℕ) (rcv : List ℕ) (fit : IsFit t) where
  -- The variables of the loop when the card's block has come.
  abbrev pub got_block : Xfer S → ℕ → ℕ → List ℕ → S → Xfer S
  got_block x nad pcb bytes s' = record x {
    sdata = write_at x.sdata 0 (frame t.csum nad pcb bytes);
    port = s';
    retries = (x.retries + 2 ^ 32 - 1) % 2 ^ 32;
  }

  pub got_block_lem :
      (rest got : List ℕ) (x : Xfer S) (nad pcb : ℕ) (bytes : List ℕ) (s' : S)
      → length bytes ≤ 253
      → IsLoaded S room rest got x
      → let y = got_block x nad pcb bytes s' in IsLoaded S room rest got y × HasBlock S pcb bytes y
  got_block_lem rest got x nad pcb bytes s' short loaded =
      let size = length-frame t.csum nad pcb bytes in
      let few = rc_bytes-le t.csum in
      let (_, byte, count, body, same) =
        received_lem t.csum nad pcb bytes x.sdata (omega (arith, loaded.block)) in
      (
        reblock room rest got x (got_block x nad pcb bytes s') refl refl same loaded.within loaded,
        record { byte = byte; count = count; body = body; short = short },
      )

  -- A round goes to the handler of the block that has come.
  pub round-on_block :
      (ph : Phase) (ns nr wtx nad pcb : ℕ) (bytes request rest got : List ℕ) (s s' : S) (x : Xfer S)
      → IsReady t dad room fit request rest got x
      → Exchanges drv t s request nad pcb bytes s'
      → round drv dad rcv (record x { t1 = live t ph ns nr wtx; port = s })
        ≡ on_block
            (block_type pcb)
            dad
            rcv
            (record (got_block x nad pcb bytes s') { t1 = live t ph ns nr 0 })
  unfolding round on_answer
  round-on_block ph ns nr wtx nad pcb bytes request rest got s s' x (loaded, ready) comes =
      let finish : Bool → (ℤ × List ℕ × S) × T1 → Round S = λ c o.
        let y = record x {
          t1 = o.1;
          sdata = o.0.1;
          port = o.0.2;
          retries = (x.retries + 2 ^ 32 - 1) % 2 ^ 32;
        } in
        elim c [
          | true ↦ overflowed (record x { t1 = live t ph ns nr wtx; port = s })
          | false ↦ elim o.0.0 [ negsuc _ ↦ give_up y | pos k ↦ on_answer dad rcv k y ]
        ] in
      let size = length-frame t.csum nad pcb bytes in
      let few = rc_bytes-le t.csum in
      let (good, byte, _, _, _) =
        received_lem t.csum nad pcb bytes x.sdata (omega (arith, loaded.block)) in
      ap₂ finish loaded.within (
        Exchanges-xcv drv (live t ph ns nr wtx) nad pcb bytes request x.sdata x.slen s s' fit.ifsd
          loaded.block ready comes)
      ∙ rw (good, byte) refl

  -- The loop has ended with the answer, at the front of the caller's memory.
  abbrev pub Delivers : ℕ → ℕ → List ℕ → S → Answer × T1 × S → Type 0
  Delivers ns nr answer s out =
      (mem : List ℕ) × (out ≡ (answered (to_int (length answer)) mem, live t receiving ns nr 0, s))
      × (take (length answer) mem ≡ answer)

  -- The answer has grown by a block.
  pub put_lem :
      (rest got : List ℕ) (x y : Xfer S) (bytes : List ℕ)
      → IsLoaded S room rest got x
      → length got + length bytes ≤ room
      → y.rbuf ≡ (Buffer.put bytes x.rbuf).1
      → y.sdata ≡ x.sdata
      → y.overran ≡ false
      → (rest' : List ℕ) → IsBuf y.sbuf
      → content y.sbuf ≡ rest'
      → IsLoaded S room rest' (got ++ bytes) y
  put_lem rest got x y bytes loaded fits grown same_block within rest' wf left =
      let size = ap length loaded.held in
      let b = x.rbuf in
      let count = length-slice b.head (b.tail - b.head) b.base in
      let (_, wf', size', all) = put-grows bytes x.rbuf loaded.rbuf (omega (arith, loaded.size)) in
      let front' = put-keeps bytes x.rbuf loaded.rbuf (omega (arith, count)) in
      record {
        block = ap length same_block ∙ loaded.block;
        sbuf = wf;
        left = left;
        rbuf = subst IsBuf (sym grown) wf';
        size = ap (λ (b : Buffer.Buf). b.size) grown ∙ size' ∙ loaded.size;
        held = ap content grown ∙ all ∙ ap (λ (l : List ℕ). l ++ bytes) loaded.held;
        within = within;
        front = ap (λ (b : Buffer.Buf). b.head) grown ∙ front'.0 ∙ loaded.front;
      }

  -- What is returned when the last block has come.
  pub finished_lem :
      (ns nr : ℕ) (rest got : List ℕ) (s : S) (x : Xfer S)
      → IsLoaded S room rest got x
      → Delivers ns nr got s
          (answered (to_int (Buffer.avail x.rbuf)) x.rbuf.base, live t receiving ns nr 0, s)
  finished_lem ns nr rest got s x loaded =
      let b = x.rbuf in
      let span = length-slice b.head (b.tail - b.head) b.base in
      let count = avail-content x.rbuf loaded.rbuf ∙ ap length loaded.held in
      (
        x.rbuf.base,
        ap (λ (n : ℕ). (answered (to_int n) x.rbuf.base, live t receiving ns nr 0, s)) count,
        sym (slice-zero (length got) b.base (omega (arith, span, ap length loaded.held)))
            ∙ ap₂ (λ (o k : ℕ). slice o k b.base) (sym loaded.front)
                (omega (arith, span, ap length loaded.held))
            ∙ loaded.held,
      )

  pub retries-IsReady :
      (request rest got : List ℕ) (x : Xfer S) (r : ℕ)
      → IsReady t dad room fit request rest got x
      → IsReady t dad room fit request rest got (record x { retries = r })
  retries-IsReady request rest got x r (loaded, ready) = (
    reblock room rest got x (record x { retries = r }) refl refl refl loaded.within loaded,
    ready,
  )

  -- A round of the loop, and its last one.
  pub rounds-again :
      (k : ℕ) (x y : Xfer S)
      → round drv dad rcv x ≡ again y
      → rounds drv (suc k) dad rcv x ≡ rounds drv k dad rcv y
  unfolding rounds
  rounds-again k x y e =
      ap
        (λ (r : Round S). elim r as (λ _. Answer × T1 × S) [
          | again z ↦ rounds drv k dad rcv z
          | finished z ↦ (answered (to_int (Buffer.avail z.rbuf)) z.rbuf.base, z.t1, z.port)
          | failed z ↦ (refused, z.t1, z.port)
          | overflowed z ↦ (overflow, z.t1, z.port)
        ])
        e

  pub rounds-finished :
      (k : ℕ) (x y : Xfer S)
      → round drv dad rcv x ≡ finished y
      → rounds drv (suc k) dad rcv x
        ≡ (answered (to_int (Buffer.avail y.rbuf)) y.rbuf.base, y.t1, y.port)
  unfolding rounds
  rounds-finished k x y e =
      ap
        (λ (r : Round S). elim r as (λ _. Answer × T1 × S) [
          | again z ↦ rounds drv k dad rcv z
          | finished z ↦ (answered (to_int (Buffer.avail z.rbuf)) z.rbuf.base, z.t1, z.port)
          | failed z ↦ (refused, z.t1, z.port)
          | overflowed z ↦ (overflow, z.t1, z.port)
        ])
        e
