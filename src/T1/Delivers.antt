-- ===== src/T1/Delivers.antt =====
-- `t1_transceive` of proto-t1.c with a card that keeps to the protocol.
use open_pgpcard_emu.Base.{
  ℕ, ◌-◌, ◌%◌, ◌^◌, ◌≤◌, ◌<◌, ◌≡◌, refl, ap, ◌∙◌, sym, subst, Bool, true, false, List, [], arith,
  ltb, ◌==◌, length, ℤ, pos, to_int-pos, take, take_all, drop, length-take,
}
use open_pgpcard_emu.Base.Slice.{slice}
use open_pgpcard_emu.Base.Write.{slice-whole}
use open_pgpcard_emu.Buffer
use open_pgpcard_emu.Buffer.Queue.{IsBuf, content}
use open_pgpcard_emu.T1.Block.{T1, sending, receiving, t1_buffer_size}
use open_pgpcard_emu.T1.Channel.{Driver}
use open_pgpcard_emu.T1.Talk.{IsFit, Takes, whole, part, takes_rounds, sent_i}
use open_pgpcard_emu.T1.Frames.{frame}
use open_pgpcard_emu.T1.Handled.{IsLoaded}
use open_pgpcard_emu.T1.Ready.{IsReady, send_next-IsReady}
use open_pgpcard_emu.T1.Transceive.{Xfer, send_next, rounds, start, transceive, answered, is_dead}
use open_pgpcard_emu.T1.Turns.{at, next-again}
use open_pgpcard_emu.T1.Round.{Delivers}
use open_pgpcard_emu.T1.Gives.{gives-sending}

module _ {S : Type 0} (drv : Driver S) (t : T1) (dad room : ℕ) (rcv : List ℕ) (fit : IsFit t) where
  -- The rounds in which the card takes the command, and those of its answer.
  takes-sending :
      (ns nr wtx : ℕ) (command answer : List ℕ) (s s' : S) (ns' nr' : ℕ)
      → (g : Takes drv t dad s ns nr command answer s' ns' nr') → (x : Xfer S) → ns < 2
      → nr < 2
      → IsReady t dad room fit
          (frame t.csum (dad % 256) (sent_i ns (ltb t.ifsc (length command))) (take t.ifsc command))
          command
          []
          x
      → x.last_send ≡ length (take t.ifsc command)
      → length answer ≤ room
      → Delivers drv t dad room rcv fit ns' nr' answer s' (
          rounds drv
            (takes_rounds drv t g)
            dad
            rcv
            (at drv t dad room rcv fit sending ns nr wtx s x))
  unfolding takes_rounds
  takes-sending ns nr wtx command answer s s' ns' nr' (whole short g) x bs br ready sent fits =
      let no_more : ltb t.ifsc (length command) ≡ false = ground arith in
      let all : take t.ifsc command ≡ command = take_all t.ifsc command short in
      let ready' : IsReady t dad room fit (frame t.csum (dad % 256) (sent_i ns false) command)
          command [] x =
        subst
          (λ (c : List ℕ).
            IsReady t dad room fit (frame t.csum (dad % 256) (sent_i ns false) c) command [] x)
          all
          (subst
            (λ (m : Bool).
              IsReady t dad room fit (frame t.csum (dad % 256) (sent_i ns m) (take t.ifsc command))
                command [] x)
            no_more ready) in
      gives-sending drv t dad room rcv fit ns nr wtx
        (frame t.csum (dad % 256) (sent_i ns false) command) answer s s' nr' g command x bs br
        ready' (omega (arith, ap length all)) fits
  takes-sending ns nr wtx command answer s s' ns' nr' (part nad pcb s₁ long is_next comes g) x bs br
        ready sent fits =
      let k = takes_rounds drv t g in
      let first : length (take t.ifsc command) ≡ t.ifsc =
        omega (arith, length-take t.ifsc command) in
      let sent' : x.last_send ≡ t.ifsc = sent ∙ first in
      let has_more : ltb t.ifsc (length command) ≡ true = ground arith in
      let ready₁ =
        subst
          (λ (m : Bool).
            IsReady t dad room fit (frame t.csum (dad % 256) (sent_i ns m) (take t.ifsc command))
              command [] x)
          has_more ready in
      let (z, same, ready₂, count) =
        next-again drv t dad room rcv fit ns nr wtx nad pcb k
          (frame t.csum (dad % 256) (sent_i ns true) (take t.ifsc command)) command [] s s₁ x bs br
          is_next (omega arith) ready₁ comes in
      let ready' =
        subst
          (λ (n : ℕ).
            IsReady t dad room fit
              (frame t.csum (dad % 256) (sent_i (1 - ns) (ltb t.ifsc (length (drop n command))))
                (take t.ifsc (drop n command)))
              (drop n command) [] z)
          sent' ready₂ in
      let count' = count ∙ ap (λ (n : ℕ). length (take t.ifsc (drop n command))) sent' in
      subst (Delivers drv t dad room rcv fit ns' nr' answer s') (sym same) (
        takes-sending (1 - ns) nr 0 (drop t.ifsc command) answer s₁ s' ns' nr' g z (omega arith) br
          ready' count' fits)

-- The state between two commands.
pub record IsOpen (t : T1) : Type 0 where
  pub fit : IsFit t
  pub alive : is_dead t.phase ≡ false
  pub ns : t.ns < 2
  pub nr : t.nr < 2

set_full-lem :
    (bytes : List ℕ)
    → length bytes < 2 ^ 32
    → let b = Buffer.set_full bytes (length bytes) in IsBuf b × (content b ≡ bytes)
unfolding Buffer.set_full Buffer.init
set_full-lem bytes small =
    let same : length bytes % 2 ^ 32 ≡ length bytes = omega arith in
    (
      (omega arith, omega arith, same, omega arith),
      ap (λ (n : ℕ). slice 0 n bytes) {x = length bytes % 2 ^ 32 - 0} {y = length bytes}
            (omega arith)
          ∙ slice-whole bytes,
    )

init-lem :
    (memory : List ℕ)
    → length memory < 2 ^ 32
    → let b = Buffer.init memory (length memory) in
      IsBuf b × (b.size ≡ length memory) × (content b ≡ []) × (b.head ≡ 0)
unfolding Buffer.init slice
init-lem memory small =
    let same : length memory % 2 ^ 32 ≡ length memory = omega arith in
    ((omega arith, omega arith, same, omega arith), same, refl, refl)

-- `t1_transceive` of a command of 1 to 2^32 - 1 bytes to a card that keeps to T=1, with an answer of
-- fewer than 2^31 bytes, room for it in a memory of less than 2^32 bytes, and a block buffer of 259
-- bytes, ends after as many rounds as the card sends blocks, returns the length of the card's
-- answer, has stored the answer at the start of the caller's memory, and leaves the phase RECEIVING
-- with the sequence numbers that come next. The card takes the command in blocks of at most `ifsc`
-- bytes with alternating numbers, gives its answer in one or more blocks, and may ask for more time
-- before each of them. Before the call the protocol is not dead, its numbers are 0 or 1, IFSC is
-- from 1 to 254, and IFSD is at most 253.
pub transceive-delivers :
    {S : Type 0} (drv : Driver S) (t : T1) (dad : ℕ) (command rcv junk answer : List ℕ)
    (port s' : S) (ns' nr' : ℕ)
    → IsOpen t
    → length junk ≡ t1_buffer_size
    → 0 < length command
    → length command < 2 ^ 32
    → length rcv < 2 ^ 32
    → length answer ≤ length rcv
    → length answer < 2 ^ 31
    → (talk : Takes drv t dad port t.ns t.nr command answer s' ns' nr')
    → (mem : List ℕ) × (transceive drv (takes_rounds drv t talk) t dad command rcv junk port ≡ (
      answered (pos (length answer)) mem,
      record t { phase = receiving; ns = ns'; nr = nr'; wtx = 0 },
      s',
    ))
      × (take (length answer) mem ≡ answer)
unfolding transceive start
transceive-delivers {S} drv t dad command rcv junk answer port s' ns' nr' open_t room some_bytes
      small small_rcv fits short talk =
    let (swf, left) = set_full-lem command small in
    let (rwf, size, held, front) = init-lem rcv small_rcv in
    let x : Xfer S = record {
      t1 = record t { phase = sending };
      port = port;
      sbuf = Buffer.set_full command (length command);
      rbuf = Buffer.init rcv (length rcv);
      sdata = junk;
      slen = 0;
      last_send = 0;
      sent_length = 0;
      retries = t.retries;
      resyncs = 3;
      overran = false;
    } in
    let loaded : IsLoaded S (length rcv) command [] x = record {
      block = room;
      sbuf = swf;
      left = left;
      rbuf = rwf;
      size = size;
      held = held;
      front = front;
      within = refl;
    } in
    let (ready, count) =
      send_next-IsReady t dad (length rcv) open_t.fit sending t.ns t.nr t.wtx command [] x open_t.ns
        loaded in
    let some_left : (length command == 0) ≡ false = ground arith in
    let (mem, run, same) =
      takes-sending drv t dad (length rcv) rcv open_t.fit t.ns t.nr t.wtx command answer port s' ns'
        nr' talk (send_next dad x) open_t.ns open_t.nr ready count fits in
    let ended : T1 = record t { phase = receiving; ns = ns'; nr = nr'; wtx = 0 } in
    rw (some_left, open_t.alive)
      (
        mem,
        run ∙ ap (λ (r : ℤ). (answered r mem, ended, s')) (to_int-pos (length answer) short),
        same,
      )
