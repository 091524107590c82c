-- ===== src/T1/Gives.antt =====
-- How `t1_transceive` of proto-t1.c collects the answer of a card that keeps to the protocol.
use open_pgpcard_emu.Base.{
  ℕ, suc, ◌+◌, ◌-◌, ◌%◌, ◌≤◌, ◌<◌, ◌≡◌, sym, subst, List, [], ◌∷◌, ◌++◌, arith, length,
  length-append, append_assoc, drop,
}
use open_pgpcard_emu.T1.Block.{T1, sending, receiving}
use open_pgpcard_emu.T1.Channel.{Driver}
use open_pgpcard_emu.T1.Talk.{IsFit, Gives, last, more, wait, gives_rounds, sent_r, sent_wtx}
use open_pgpcard_emu.T1.Frames.{frame}
use open_pgpcard_emu.T1.Ready.{IsReady}
use open_pgpcard_emu.T1.Transceive.{Xfer, rounds, Answer}
use open_pgpcard_emu.T1.Turns.{
  at, receiving-Accepted, sending-Accepted, last-Delivers, more-again, wait-again,
}
use open_pgpcard_emu.T1.Round.{got_block, got_block_lem, Delivers}

module _ {S : Type 0} (drv : Driver S) (t : T1) (dad room : ℕ) (rcv : List ℕ) (fit : IsFit t) where
  abbrev run : ℕ → Xfer S → Answer × T1 × S
  run k x = rounds drv k dad rcv x

  -- What follows a block that is not the last one of the answer, at the end of the answer.
  after :
      (ns nr : ℕ) (got bytes answer : List ℕ) (s : S) (out out' : Answer × T1 × S)
      → out ≡ out'
      → Delivers drv t dad room rcv fit ns nr ((got ++ bytes) ++ answer) s out'
      → Delivers drv t dad room rcv fit ns nr (got ++ (bytes ++ answer)) s out
  after ns nr got bytes answer s out out' same delivers =
      subst (λ (l : List ℕ). Delivers drv t dad room rcv fit ns nr l s out)
        (append_assoc got bytes answer)
        (subst (Delivers drv t dad room rcv fit ns nr ((got ++ bytes) ++ answer) s) (sym same)
          delivers)

  -- The rounds in which the card gives its answer, behind its first block.
  gives-receiving :
      (ns nr wtx : ℕ) (request got answer : List ℕ) (s s' : S) (nr' : ℕ)
      → (g : Gives drv t dad request s nr answer s' nr') → (rest : List ℕ) (x : Xfer S) → ns < 2
      → nr < 2
      → IsReady t dad room fit request rest got x
      → length got + length answer ≤ room
      → Delivers drv t dad room rcv fit ns nr' (got ++ answer) s' (
          rounds drv
            (gives_rounds drv t g)
            dad
            rcv
            (at drv t dad room rcv fit receiving ns nr wtx s x))
  unfolding gives_rounds
  gives-receiving ns nr wtx request got answer s s' nr' (last nad pcb is_last comes) rest x bs br
        ready fits =
      let y = got_block drv t dad room rcv fit x nad pcb answer s' in
      let (loaded, has) =
        got_block_lem drv t dad room rcv fit rest got x nad pcb answer s' (omega (arith, comes.0))
          ready.0 in
      last-Delivers drv t dad room rcv fit receiving ns ns nr wtx nad pcb 0 answer request rest rest
        got s s' x is_last ready comes
        (receiving-Accepted drv t dad room rcv fit ns nr pcb answer rest got y bs br is_last.1 fits
          loaded has)
  gives-receiving ns nr wtx request got answer s s' nr'
        (more nad pcb bytes {rest = answer'} s₁ chained comes g) rest x bs br ready fits =
      let total = length-append bytes answer' in
      let longer = length-append got bytes in
      let k = gives_rounds drv t g in
      let y = got_block drv t dad room rcv fit x nad pcb bytes s₁ in
      let (loaded, has) =
        got_block_lem drv t dad room rcv fit rest got x nad pcb bytes s₁ (omega (arith, comes.0))
          ready.0 in
      let taken =
        receiving-Accepted drv t dad room rcv fit ns nr pcb bytes rest got y bs br chained.1
          (omega arith) loaded has in
      let (z, same, ready') =
        more-again drv t dad room rcv fit receiving ns ns nr wtx nad pcb k bytes request rest rest
          got s s₁ x chained ready comes taken in
      after ns nr' got bytes answer' s'
        (run (suc k) (at drv t dad room rcv fit receiving ns nr wtx s x))
        (run k (at drv t dad room rcv fit receiving ns (1 - nr) 0 s₁ z)) same
        (gives-receiving ns (1 - nr) 0 (frame t.csum (dad % 256) (sent_r (1 - nr)) [])
          (got ++ bytes) answer' s₁ s' nr' g rest z bs (omega arith) ready' (omega arith))
  gives-receiving ns nr wtx request got answer s s' nr' (wait nad pcb info s₁ is_wtx comes g) rest x
        bs br ready fits =
      let (z, same, ready', _) =
        wait-again drv t dad room rcv fit receiving ns nr wtx nad pcb info (gives_rounds drv t g)
          request rest got s s₁ x bs br is_wtx ready comes in
      subst (Delivers drv t dad room rcv fit ns nr' (got ++ answer) s') (sym same) (
        gives-receiving ns nr info (frame t.csum (dad % 256) sent_wtx (info ∷ [])) got answer s₁ s'
          nr' g rest z bs br ready' fits)

  -- The same from the last block of the command on. The first block of the answer acknowledges it.
  pub gives-sending :
      (ns nr wtx : ℕ) (request answer : List ℕ) (s s' : S) (nr' : ℕ)
      → (g : Gives drv t dad request s nr answer s' nr') → (rest : List ℕ) (x : Xfer S) → ns < 2
      → nr < 2
      → IsReady t dad room fit request rest [] x
      → x.last_send ≤ length rest
      → length answer ≤ room
      → Delivers drv t dad room rcv fit (1 - ns) nr' answer s' (
          rounds drv
            (gives_rounds drv t g)
            dad
            rcv
            (at drv t dad room rcv fit sending ns nr wtx s x))
  unfolding gives_rounds
  gives-sending ns nr wtx request answer s s' nr' (last nad pcb is_last comes) rest x bs br ready
        sent fits =
      let y = got_block drv t dad room rcv fit x nad pcb answer s' in
      let (loaded, has) =
        got_block_lem drv t dad room rcv fit rest [] x nad pcb answer s' (omega (arith, comes.0))
          ready.0 in
      last-Delivers drv t dad room rcv fit sending ns (1 - ns) nr wtx nad pcb 0 answer request rest
        (drop x.last_send rest) [] s s' x is_last ready comes
        (sending-Accepted drv t dad room rcv fit ns nr pcb answer rest [] y bs br is_last.1
          (omega arith) sent loaded has)
  gives-sending ns nr wtx request answer s s' nr'
        (more nad pcb bytes {rest = answer'} s₁ chained comes g) rest x bs br ready sent fits =
      let total = length-append bytes answer' in
      let k = gives_rounds drv t g in
      let y = got_block drv t dad room rcv fit x nad pcb bytes s₁ in
      let left = drop x.last_send rest in
      let (loaded, has) =
        got_block_lem drv t dad room rcv fit rest [] x nad pcb bytes s₁ (omega (arith, comes.0))
          ready.0 in
      let taken =
        sending-Accepted drv t dad room rcv fit ns nr pcb bytes rest [] y bs br chained.1
          (omega arith) sent loaded has in
      let (z, same, ready') =
        more-again drv t dad room rcv fit sending ns (1 - ns) nr wtx nad pcb k bytes request rest
          left [] s s₁ x chained ready comes taken in
      after (1 - ns) nr' [] bytes answer' s'
        (run (suc k) (at drv t dad room rcv fit sending ns nr wtx s x))
        (run k (at drv t dad room rcv fit receiving (1 - ns) (1 - nr) 0 s₁ z)) same
        (gives-receiving (1 - ns) (1 - nr) 0 (frame t.csum (dad % 256) (sent_r (1 - nr)) []) bytes
          answer' s₁ s' nr' g left z (omega arith) (omega arith) ready' (omega arith))
  gives-sending ns nr wtx request answer s s' nr' (wait nad pcb info s₁ is_wtx comes g) rest x bs br
        ready sent fits =
      let (z, same, ready', still) =
        wait-again drv t dad room rcv fit sending ns nr wtx nad pcb info (gives_rounds drv t g)
          request rest [] s s₁ x bs br is_wtx ready comes in
      subst (Delivers drv t dad room rcv fit (1 - ns) nr' answer s') (sym same) (
        gives-sending ns nr info (frame t.csum (dad % 256) sent_wtx (info ∷ [])) answer s₁ s' nr' g
          rest z bs br ready' (omega arith) fits)
