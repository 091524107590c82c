-- ===== src/T1/Turns.antt =====
-- The rounds of `t1_transceive` of proto-t1.c at each block of a card that keeps to the protocol.
use open_pgpcard_emu.Base.{
  ◌≢◌, some, ℕ, suc, ◌+◌, ◌-◌, ◌%◌, ◌^◌, ◌≤◌, ◌<◌, ◌≡◌, refl, ap, ◌∙◌, sym, subst, false, List, [],
  ◌∷◌, ◌++◌, arith, ltb, ◌==◌, ne→==_false, none, if◌then◌else◌, length, take, drop, bit_and,
}
use open_pgpcard_emu.Buffer
use open_pgpcard_emu.Buffer.Queue.{get-drops}
use open_pgpcard_emu.T1.Block.{T1, Phase, sending, receiving, seq, r_block, more_blocks}
use open_pgpcard_emu.T1.Channel.{Driver}
use open_pgpcard_emu.T1.Talk.{
  IsFit, Exchanges, IsLast, IsChained, IsNext, IsWtx, sent_i, sent_r, sent_wtx,
}
use open_pgpcard_emu.T1.Frames.{frame}
use open_pgpcard_emu.T1.Handled.{
  IsLoaded, HasBlock, live, on_i_block-receiving, on_i_block-sending, on_r_block-next,
  on_s_block-wtx,
}
use open_pgpcard_emu.T1.Ready.{
  IsReady, reblock, reply_r-IsReady, reply_wtx-IsReady, send_next-IsReady,
}
use open_pgpcard_emu.T1.Transceive.{
  Xfer, finished, reply, send_next, splendid, on_block, on_i_block, rounds,
}
use open_pgpcard_emu.T1.Round.{
  got_block, got_block_lem, round-on_block, Delivers, put_lem, finished_lem, retries-IsReady,
  rounds-again, rounds-finished,
}

module _ {S : Type 0} (drv : Driver S) (t : T1) (dad room : ℕ) (rcv : List ℕ) (fit : IsFit t) where
  -- The variables when the host's next block is made, in the state `live t ph ns nr wtx`.
  abbrev pub at : Phase → ℕ → ℕ → ℕ → S → Xfer S → Xfer S
  at ph ns nr wtx s x = record x { t1 = live t ph ns nr wtx; port = s }

  -- An I-block of the card was taken: what the handler does, and what it leaves to be sent.
  abbrev pub Accepted : Phase → ℕ → ℕ → ℕ → ℕ → List ℕ → List ℕ → List ℕ → S → Xfer S → Type 0
  Accepted ph ns ns' nr pcb bytes rest got s' y =
      (z : Xfer S) × (on_i_block dad (record y { t1 = live t ph ns nr 0 }) ≡ (
        if bit_and pcb more_blocks == 0
        then finished (at receiving ns' (1 - nr) 0 s' z)
        else splendid (reply dad r_block none (at receiving ns' (1 - nr) 0 s' z))))
      × IsLoaded S room rest (got ++ bytes) z

  pub receiving-Accepted :
      (ns nr pcb : ℕ) (bytes rest got : List ℕ) (y : Xfer S)
      → ns < 2
      → nr < 2
      → seq pcb ≡ nr
      → length got + length bytes ≤ room
      → IsLoaded S room rest got y
      → HasBlock S pcb bytes y
      → Accepted receiving ns ns nr pcb bytes rest got y.port y
  receiving-Accepted ns nr pcb bytes rest got y bs br due fits loaded has =
      let z = record y { rbuf = (Buffer.put bytes y.rbuf).1 } in
      (
        z,
        on_i_block-receiving t ns nr 0 dad pcb bytes room rest got y loaded has bs br due fits,
        put_lem drv t dad room rcv fit rest got y z bytes loaded fits refl refl loaded.within rest
            loaded.sbuf loaded.left,
      )

  pub sending-Accepted :
      (ns nr pcb : ℕ) (bytes rest got : List ℕ) (y : Xfer S)
      → ns < 2
      → nr < 2
      → seq pcb ≡ nr
      → length got + length bytes ≤ room
      → y.last_send ≤ length rest
      → IsLoaded S room rest got y
      → HasBlock S pcb bytes y
      → Accepted sending ns (1 - ns) nr pcb bytes (drop y.last_send rest) got y.port y
  sending-Accepted ns nr pcb bytes rest got y bs br due fits sent loaded has =
      let n = y.last_send in
      let z = record y {
        sbuf = (Buffer.get n y.sbuf).2;
        rbuf = (Buffer.put bytes y.rbuf).1;
        last_send = 0;
      } in
      let (_, _, wf, rest') =
        get-drops n y.sbuf loaded.sbuf (omega (arith, ap length loaded.left)) in
      (
        z,
        on_i_block-sending t ns nr 0 dad pcb bytes room rest got y loaded has bs br due fits,
        put_lem drv t dad room rcv fit rest got y z bytes loaded fits refl refl loaded.within
            (drop n rest) wf (rest' ∙ ap (drop n) loaded.left),
      )

  -- The loop ends at the last block of the answer.
  pub last-Delivers :
      (ph : Phase) (ns ns' nr wtx nad pcb k : ℕ) (bytes request rest rest' got : List ℕ) (s s' : S)
      (x : Xfer S)
      → IsLast nr pcb
      → IsReady t dad room fit request rest got x
      → Exchanges drv t s request nad pcb bytes s'
      → Accepted ph ns ns' nr pcb bytes rest' got s'
          (got_block drv t dad room rcv fit x nad pcb bytes s')
      → Delivers drv t dad room rcv fit ns'
          (1 - nr)
          (got ++ bytes)
          s'
          (rounds drv (suc k) dad rcv (at ph ns nr wtx s x))
  unfolding on_block
  last-Delivers ph ns ns' nr wtx nad pcb k bytes request rest rest' got s s' x (is_i, due, end)
        ready comes (z, done, loaded) =
      let step =
        round-on_block drv t dad room rcv fit ph ns nr wtx nad pcb bytes request rest got s s' x
          ready comes in
      let ended = step ∙ rw is_i (done ∙ rw end refl) in
      subst (Delivers drv t dad room rcv fit ns' (1 - nr) (got ++ bytes) s')
        (sym (
          rounds-finished drv t dad room rcv fit k (at ph ns nr wtx s x)
            (at receiving ns' (1 - nr) 0 s' z) ended))
        (finished_lem drv t dad room rcv fit ns' (1 - nr) rest' (got ++ bytes) s' z loaded)

  -- At another block of the answer the host asks for the next one.
  pub more-again :
      (ph : Phase) (ns ns' nr wtx nad pcb k : ℕ) (bytes request rest rest' got : List ℕ) (s s' : S)
      (x : Xfer S)
      → IsChained nr pcb
      → IsReady t dad room fit request rest got x
      → Exchanges drv t s request nad pcb bytes s'
      → Accepted ph ns ns' nr pcb bytes rest' got s'
          (got_block drv t dad room rcv fit x nad pcb bytes s')
      → (z : Xfer S) × (rounds drv (suc k) dad rcv (at ph ns nr wtx s x)
          ≡ rounds drv k dad rcv (at receiving ns' (1 - nr) 0 s' z))
        × IsReady t dad room fit
            (frame t.csum (dad % 256) (sent_r (1 - nr)) [])
            rest'
            (got ++ bytes)
            z
  unfolding on_block reply
  more-again ph ns ns' nr wtx nad pcb k bytes request rest rest' got s s' x (is_i, due, chained)
        ready comes (z, taken, loaded) =
      let step =
        round-on_block drv t dad room rcv fit ph ns nr wtx nad pcb bytes request rest got s s' x
          ready comes in
      let not_last : (bit_and pcb more_blocks == 0) ≡ false =
        ne→==_false (bit_and pcb more_blocks) 0 chained in
      let bit' : 1 - nr < 2 = omega arith in
      let goes = step ∙ rw is_i (taken ∙ rw not_last refl) in
      let asked = reply dad r_block none (at receiving ns' (1 - nr) 0 s' z) in
      let z' = record asked { retries = t.retries } in
      (
        z',
        rounds-again drv t dad room rcv fit k (at ph ns nr wtx s x) z' goes,
        retries-IsReady drv t dad room rcv fit (frame t.csum (dad % 256) (sent_r (1 - nr)) []) rest'
            (got ++ bytes) asked t.retries
            (reply_r-IsReady t dad room fit receiving ns' (1 - nr) 0 rest' (got ++ bytes)
              (record z { port = s' }) bit'
              (reblock room rest' (got ++ bytes) z (record z { port = s' }) refl refl refl
                loaded.within loaded)),
      )

  -- More time is granted.
  pub wait-again :
      (ph : Phase) (ns nr wtx nad pcb info k : ℕ) (request rest got : List ℕ) (s s' : S)
      (x : Xfer S)
      → ns < 2
      → nr < 2
      → IsWtx pcb
      → IsReady t dad room fit request rest got x
      → Exchanges drv t s request nad pcb (info ∷ []) s'
      → (z : Xfer S) × (rounds drv (suc k) dad rcv (at ph ns nr wtx s x)
          ≡ rounds drv k dad rcv (at ph ns nr info s' z))
        × IsReady t dad room fit (frame t.csum (dad % 256) sent_wtx (info ∷ [])) rest got z
        × (z.last_send ≡ x.last_send)
  unfolding on_block reply
  wait-again ph ns nr wtx nad pcb info k request rest got s s' x bs br (is_s, asks, kind) ready
        comes =
      let y = got_block drv t dad room rcv fit x nad pcb (info ∷ []) s' in
      let (loaded, has) =
        got_block_lem drv t dad room rcv fit rest got x nad pcb (info ∷ []) s' (omega arith)
          ready.0 in
      let step =
        round-on_block drv t dad room rcv fit ph ns nr wtx nad pcb (info ∷ []) request rest got s s'
          x ready comes in
      let granted =
        on_s_block-wtx t ns nr 0 dad pcb (info ∷ []) room rest got y loaded has bs br info ph rcv
          refl asks kind in
      let answer =
        reply dad sent_wtx
          (some (Buffer.put (info ∷ []) (Buffer.init (0 ∷ 0 ∷ 0 ∷ 0 ∷ 0 ∷ []) 5)).1)
          (record y { t1 = live t ph ns nr info }) in
      let z = record answer { retries = t.retries } in
      (
        z,
        rounds-again drv t dad room rcv fit k (at ph ns nr wtx s x) z (step ∙ rw is_s granted),
        retries-IsReady drv t dad room rcv fit (frame t.csum (dad % 256) sent_wtx (info ∷ [])) rest
            got answer t.retries
            (reply_wtx-IsReady t dad room fit ph ns nr info info rest got y loaded),
        refl,
      )

  -- The next block of the command goes out.
  pub next-again :
      (ns nr wtx nad pcb k : ℕ) (request rest got : List ℕ) (s s' : S) (x : Xfer S)
      → ns < 2
      → nr < 2
      → IsNext (1 - ns) pcb
      → x.last_send < length rest
      → IsReady t dad room fit request rest got x
      → Exchanges drv t s request nad pcb [] s'
      → let rest' = drop x.last_send rest in
        (z : Xfer S) × (rounds drv (suc k) dad rcv (at sending ns nr wtx s x)
          ≡ rounds drv k dad rcv (at sending (1 - ns) nr 0 s' z))
        × IsReady t dad room fit
            (frame t.csum
              (dad % 256)
              (sent_i (1 - ns) (ltb t.ifsc (length rest')))
              (take t.ifsc rest'))
            rest'
            got
            z
        × (z.last_send ≡ length (take t.ifsc rest'))
  unfolding on_block send_next
  next-again ns nr wtx nad pcb k request rest got s s' x bs br (is_r, other, no_error) left ready
        comes =
      let n = x.last_send in
      let y = got_block drv t dad room rcv fit x nad pcb [] s' in
      let (loaded, has) =
        got_block_lem drv t dad room rcv fit rest got x nad pcb [] s' (omega arith) ready.0 in
      let step =
        round-on_block drv t dad room rcv fit sending ns nr wtx nad pcb [] request rest got s s' x
          ready comes in
      let differs : seq pcb ≢ ns = ground arith in
      let goes =
        on_r_block-next t ns nr 0 dad pcb [] room rest got y loaded has bs br no_error differs
          left in
      let w = record y {
        sbuf = (Buffer.get n y.sbuf).2;
        last_send = 0;
        sent_length = (y.sent_length + n) % 2 ^ 32;
      } in
      let (_, _, wf, rest') =
        get-drops n y.sbuf loaded.sbuf (omega (arith, ap length loaded.left)) in
      let loaded' : IsLoaded S room (drop n rest) got w = record {
        block = loaded.block;
        sbuf = wf;
        left = rest' ∙ ap (drop n) loaded.left;
        rbuf = loaded.rbuf;
        size = loaded.size;
        held = loaded.held;
        front = loaded.front;
        within = loaded.within;
      } in
      let sent = send_next dad (record w { t1 = live t sending (1 - ns) nr 0 }) in
      let (sent_ready, count) =
        send_next-IsReady t dad room fit sending (1 - ns) nr 0 (drop n rest) got w (omega arith)
          loaded' in
      (
        record sent { retries = t.retries },
        rounds-again drv t dad room rcv fit k (at sending ns nr wtx s x)
            (record sent { retries = t.retries }) (step ∙ rw is_r goes),
        retries-IsReady drv t dad room rcv fit
            (frame t.csum (dad % 256) (sent_i (1 - ns) (ltb t.ifsc (length (drop n rest))))
              (take t.ifsc (drop n rest)))
            (drop n rest) got sent t.retries sent_ready,
        count,
      )
