-- ===== src/T1/Safety.antt =====
-- How `t1_transceive` of OpenCTDriver/src/ifd/proto-t1.c ends, whatever the card sends.
use open_pgpcard_emu.Base.{
  ℕ, zero, suc, ◌+◌, ◌-◌, ◌%◌, ◌^◌, ◌≤◌, ◌<◌, ◌≡◌, refl, sym, subst, ◌∙◌, Bool, true, false, List,
  arith, ◌||◌, ◌==◌, length, pos, negsuc, to_int, to_int-pos, Bool-cases, inl, inr, ℤ,
}
use open_pgpcard_emu.Buffer
use open_pgpcard_emu.Buffer.{Buf, init}
use open_pgpcard_emu.Buffer.Queue.{avail-sub}
use open_pgpcard_emu.T1.Block.{Phase, sending, receiving, resynch, dead, T1, t1_buffer_size}
use open_pgpcard_emu.T1.Channel.{Driver, xcv}
use open_pgpcard_emu.T1.Transceive.{
  Xfer, Round, again, finished, failed, overflowed, Answer, answered, refused, overflow,
  out_of_fuel, is_dead, send_next, give_up, on_answer, round, rounds, start, transceive,
}
use open_pgpcard_emu.T1.Heard.{length-xcv}
use open_pgpcard_emu.T1.Sent.{IsWhole, IsNext, send_next-IsNext}
use open_pgpcard_emu.T1.Kept.{IsKept, init-IsRoom, on_answer-IsKept}

-- How `t1_transceive` may end: an answer that fits the memory of `n` bytes, a failure that leaves the
-- protocol dead, or, with an information field size above 254, a write behind the block buffer.
abbrev pub IsSafe : ℕ → Answer → T1 → Type 0
IsSafe n (answered (pos len) mem) t = (len ≤ n) × (length mem ≡ n)
IsSafe n (answered (negsuc e) mem) t = ⊥
IsSafe n refused t = t.phase ≡ dead
IsSafe n overflow t = 254 < t.ifsc
IsSafe n out_of_fuel t = Unit

is_dead-dead : (p : Phase) → is_dead p ≡ true → p ≡ dead
is_dead-dead dead e = refl
is_dead-dead sending e = absurd (ground arith)
is_dead-dead receiving e = absurd (ground arith)
is_dead-dead resynch e = absurd (ground arith)

module _ {S : Type 0} (drv : Driver S) where
  round-IsKept :
      (dad : ℕ) (rcv : List ℕ) (x : Xfer S)
      → length rcv < 2 ^ 32
      → IsNext (length rcv) x
      → IsKept (length rcv) (round drv dad rcv x)
  unfolding round give_up
  round-IsKept dad rcv x small ((room, size), over) =
      let out = xcv drv x.t1 x.sdata x.slen t1_buffer_size x.port in
      let after : Round S = elim out.0.0 [
        | negsuc _ ↦ give_up (heard out)
        | pos k ↦ on_answer dad rcv k (heard out)
      ] in
      checked x.overran over after (
        judged out.0.0 (heard out)
          (room, length-xcv drv x.t1 x.sdata x.slen t1_buffer_size x.port ∙ size))
    where
      heard : (ℤ × List ℕ × S) × T1 → Xfer S
      heard out = record x {
        t1 = out.1;
        port = out.0.2;
        sdata = out.0.1;
        retries = (x.retries + 2 ^ 32 - 1) % 2 ^ 32;
      }

      checked :
          (c : Bool)
          → (c ≡ true → 254 < x.t1.ifsc)
          → (r : Round S) → IsKept (length rcv) r
          → IsKept (length rcv) (elim c as (λ _. Round S) [ true ↦ overflowed x | false ↦ r ])
      checked true large r kept = large refl
      checked false large r kept = kept

      judged :
          (r : ℤ) (y : Xfer S)
          → IsWhole (length rcv) y
          → IsKept
              (length rcv)
              (elim r as (λ _. Round S) [ negsuc _ ↦ give_up y | pos k ↦ on_answer dad rcv k y ])
      judged (pos k) y whole = on_answer-IsKept dad rcv k y small whole
      judged (negsuc e) y whole = refl

  rounds-IsSafe :
      (fuel dad : ℕ) (rcv : List ℕ) (x : Xfer S)
      → length rcv < 2 ^ 31
      → IsNext (length rcv) x
      → let out = rounds drv fuel dad rcv x in IsSafe (length rcv) out.0 out.1
  unfolding rounds
  rounds-IsSafe zero dad rcv x small whole = tt
  rounds-IsSafe (suc fuel) dad rcv x small whole =
      ended (round drv dad rcv x) (round-IsKept dad rcv x (omega arith) whole)
        (λ y whole'. rounds-IsSafe fuel dad rcv y small whole')
    where
      ended :
          (r : Round S)
          → IsKept (length rcv) r
          → ((y : Xfer S)
              → IsNext (length rcv) y
              → let out = rounds drv fuel dad rcv y in IsSafe (length rcv) out.0 out.1)
          → let out = elim r as (λ _. Answer × T1 × S) [
            | again y ↦ rounds drv fuel dad rcv y
            | finished y ↦ (answered (to_int (Buffer.avail y.rbuf)) y.rbuf.base, y.t1, y.port)
            | failed y ↦ (refused, y.t1, y.port)
            | overflowed y ↦ (overflow, y.t1, y.port)
          ] in
            IsSafe (length rcv) out.0 out.1
      ended (again y) whole' further = further y whole'
      ended (finished y) (wf, size) further =
          let fits : Buffer.avail y.rbuf ≤ length rcv = omega (arith, avail-sub y.rbuf wf) in
          subst (λ (r : ℤ). IsSafe (length rcv) (answered r y.rbuf.base) y.t1)
            (sym (to_int-pos (Buffer.avail y.rbuf) (omega arith))) (fits, sym wf.2 ∙ size)
      ended (failed y) died further = died
      ended (overflowed y) large further = large

  -- `t1_transceive` of a non-empty command with an answer buffer of less than 2^31 bytes and a block
  -- buffer of 259, whatever the card sends: where the call ends, it has stored an answer that fits the
  -- answer buffer and returns its length, or it returns -1 and the protocol is dead, or it has written
  -- a block behind the block buffer, and then the card's information field size is above 254.
  pub transceive-IsSafe :
      (fuel : ℕ) (t : T1) (dad : ℕ) (snd rcv junk : List ℕ) (port : S)
      → 1 ≤ length snd
      → length rcv < 2 ^ 31
      → length junk ≡ t1_buffer_size
      → let out = transceive drv fuel t dad snd rcv junk port in IsSafe (length rcv) out.0 out.1
  unfolding transceive start
  transceive-IsSafe fuel t dad snd rcv junk port some_byte small size =
      elim (Bool-cases (length snd == 0 || is_dead t.phase)) [
        | inl no_call ↦ rw no_call (is_dead-dead t.phase (ground arith))
        | inr call ↦
            let x : Xfer S = record {
              t1 = record t { phase = sending };
              port = port;
              sbuf = Buffer.set_full snd (length snd);
              rbuf = init rcv (length rcv);
              sdata = junk;
              slen = 0;
              last_send = 0;
              sent_length = 0;
              retries = t.retries;
              resyncs = 3;
              overran = false;
            } in
            rw call (
              rounds-IsSafe fuel dad rcv (send_next dad x) small
                (send_next-IsNext (length rcv) dad x (init-IsRoom rcv (omega arith), size)))
      ]
