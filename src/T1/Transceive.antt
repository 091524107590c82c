-- ===== src/T1/Transceive.antt =====
-- `t1_transceive`: an APDU to the card in I-blocks, and its answer.
use open_pgpcard_emu.Base.{
  ℕ, zero, suc, ◌+◌, ◌-◌, ◌%◌, ◌^◌, bit_and, bit_or, bit_xor, Bool, true, false, List, [], ◌∷◌,
  ◌||◌, ◌==◌, ◌!=◌, if◌then◌else◌, Option, none, some, get_or, length, ℤ, pos, negsuc, is_neg,
  to_int,
}
use open_pgpcard_emu.Base.Slice.{slice}
use open_pgpcard_emu.Buffer
use open_pgpcard_emu.Buffer.{Buf}
use open_pgpcard_emu.T1.Block.{
  Phase, sending, receiving, resynch, dead, T1, BlockType, block_type, seq, build, verify_checksum,
  i_block, r_block, s_block, more_blocks, edc_error, other_error, s_response, s_resync, s_ifs,
  s_abort, s_wtx, t1_buffer_size,
}
use open_pgpcard_emu.T1.Channel.{Driver, xcv}

-- The variables of the loop: the protocol's state, the outside, the bytes to send, the answer,
-- the block buffer with the length of the block in it, the counters, and whether the block was
-- written behind its buffer.
pub record Xfer (S : Type 0) : Type 0 where
  pub t1 : T1
  pub port : S
  pub sbuf : Buf
  pub rbuf : Buf
  pub sdata : List ℕ
  pub slen : ℕ
  pub last_send : ℕ
  pub sent_length : ℕ
  pub retries : ℕ
  pub resyncs : ℕ
  pub overran : Bool

-- How a round of `while (1)` ends; `overflowed` if the block to be sent was written behind `sdata`.
pub data Round (S : Type 0) : Type 0 where
  again finished failed overflowed : Xfer S → Round S

abbrev pub is_sending : Phase → Bool
is_sending sending = true
is_sending _ = false

abbrev pub is_receiving : Phase → Bool
is_receiving receiving = true
is_receiving _ = false

abbrev pub is_resynch : Phase → Bool
is_resynch resynch = true
is_resynch _ = false

abbrev pub is_dead : Phase → Bool
is_dead dead = true
is_dead _ = false

module _ {S : Type 0} where
  abbrev pub pcb_of : Xfer S → ℕ
  pcb_of x = get_or x.sdata 1 0

  -- `slen = t1_build(t1, sdata, dad, pcb, bp, NULL)`
  unfoldable pub reply : ℕ → ℕ → Option Buf → Xfer S → Xfer S
  reply dad pcb bp x =
      let out = build x.t1 dad pcb bp x.sdata in
      record x {
        slen = (elim out [ none ↦ x.slen | some block ↦ block.0 ]);
        sdata = (elim out [ none ↦ x.sdata | some block ↦ block.2 ]);
        overran = (elim out [ none ↦ true | some block ↦ false ]);
      }

  -- `slen = t1_build(t1, sdata, dad, T1_I_BLOCK, &sbuf, &last_send)`
  unfoldable pub send_next : ℕ → Xfer S → Xfer S
  send_next dad x =
      let out = build x.t1 dad i_block (some x.sbuf) x.sdata in
      record x {
        slen = (elim out [ none ↦ x.slen | some block ↦ block.0 ]);
        sdata = (elim out [ none ↦ x.sdata | some block ↦ block.2 ]);
        last_send = (elim out [ none ↦ x.last_send | some block ↦ block.1 ]);
        overran = (elim out [ none ↦ true | some block ↦ false ]);
      }

  -- The label `error`, and the label `resync`.
  unfoldable pub give_up : Xfer S → Round S
  give_up x = failed (record x { t1 = record x.t1 { phase = dead } })

  unfoldable pub resynchronise : ℕ → Xfer S → Round S
  unfolding give_up reply
  resynchronise dad x =
      if x.resyncs == 0
      then give_up x
      else let y = record x { resyncs = x.resyncs - 1; t1 = record x.t1 { ns = 0; nr = 0 } } in
        let z = reply dad (bit_or s_block s_resync) none y in
        again (record z { t1 = record z.t1 { phase = resynch } })

  -- "Everything went just splendid": the retries start anew.
  abbrev pub splendid : Xfer S → Round S
  splendid x = again (record x { retries = x.t1.retries })

  -- The last block is acknowledged.
  unfoldable pub acknowledge : Xfer S → Xfer S
  acknowledge x = record x {
    sbuf = (Buffer.get x.last_send x.sbuf).2;
    last_send = 0;
    t1 = record x.t1 { ns = bit_xor x.t1.ns 1 };
  }

  unfoldable pub on_r_block : ℕ → Xfer S → Round S
  unfolding resynchronise reply send_next acknowledge
  on_r_block dad x =
      if bit_and (pcb_of x) 0x0F != 0
      then resynchronise dad x
      else if is_receiving x.t1.phase
      then splendid (reply dad r_block none x)
      else let y =
          if seq (pcb_of x) != x.t1.ns
          then record (acknowledge x) { sent_length = (x.sent_length + x.last_send) % 2 ^ 32 }
          else x in
        if Buffer.avail y.sbuf == 0 then resynchronise dad y else splendid (send_next dad y)

  unfoldable pub on_i_block : ℕ → Xfer S → Round S
  unfolding give_up reply acknowledge
  on_i_block dad x =
      let acked = if is_sending x.t1.phase then acknowledge x else x in
      let y = record acked { t1 = record acked.t1 { phase = receiving } } in
      if seq (pcb_of x) != y.t1.nr
      then again (reply dad (bit_or r_block other_error) none y)
      else let (r, rbuf) = Buffer.put (slice 3 (get_or x.sdata 2 0) x.sdata) y.rbuf in
        let z = record y { rbuf = rbuf; t1 = record y.t1 { nr = bit_xor y.t1.nr 1 } } in
        if is_neg r
        then give_up z
        else if bit_and (pcb_of x) more_blocks == 0
        then finished z
        else splendid (reply dad r_block none z)

  -- The S-blocks that the card may send as requests; `tbuf` holds at most one byte.
  unfoldable pub respond : ℕ → ℕ → List ℕ → Xfer S → Round S
  unfolding reply
  respond dad pcb body x = splendid (
      reply dad (bit_or (bit_or s_block s_response) (bit_and pcb 0x0F))
        (some (Buffer.put body (Buffer.init (0 ∷ 0 ∷ 0 ∷ 0 ∷ 0 ∷ []) 5)).1) x)

  unfoldable pub on_s_request : ℕ → Xfer S → Round S
  unfolding resynchronise respond
  on_s_request dad x =
      let kind = bit_and (pcb_of x) 0x0F in
      let info = get_or x.sdata 3 0 in
      if kind == s_resync
      then resynchronise dad x
      else if kind == s_abort
      then respond dad (pcb_of x) [] x
      else if kind == s_ifs
      then (if info == 0
          then resynchronise dad x
          else respond dad (pcb_of x) (info ∷ []) (record x { t1 = record x.t1 { ifsc = info } }))
      else if kind == s_wtx
      then respond dad (pcb_of x) (info ∷ []) (record x { t1 = record x.t1 { wtx = info } })
      else resynchronise dad x

  -- `rcv` is `rcv_buf` with its length.
  unfoldable pub on_s_block : ℕ → List ℕ → Xfer S → Round S
  unfolding resynchronise send_next on_s_request
  on_s_block dad rcv x =
      if bit_and (pcb_of x) s_response != 0
      then (if is_resynch x.t1.phase
          then again (
              send_next dad (record x {
                t1 = record x.t1 { phase = sending };
                sent_length = 0;
                last_send = 0;
                resyncs = 3;
                retries = x.t1.retries;
                rbuf = Buffer.init rcv (length rcv);
              }))
          else resynchronise dad x)
      else on_s_request dad x

  unfoldable pub on_block : BlockType → ℕ → List ℕ → Xfer S → Round S
  unfolding on_r_block on_i_block on_s_block
  on_block BlockType.r dad rcv x = on_r_block dad x
  on_block BlockType.i dad rcv x = on_i_block dad x
  on_block BlockType.s dad rcv x = on_s_block dad rcv x

  -- What follows `t1_xcv`, with `n` bytes received.
  unfoldable pub on_answer : ℕ → List ℕ → ℕ → Xfer S → Round S
  unfolding resynchronise reply on_block
  on_answer dad rcv n x =
      if verify_checksum x.t1.csum n x.sdata
      then on_block (block_type (pcb_of x)) dad rcv x
      else if x.retries == 0 || x.sent_length != 0
      then resynchronise dad x
      else again (reply dad (bit_or r_block edc_error) none x)

-- How the call ends: the length of the answer, as the `int` that is returned, and the memory it lies
-- in, -1, a write behind the block buffer, or more rounds than the fuel.
pub data Answer : Type 0 where
  answered : ℤ → List ℕ → Answer
  refused : Answer
  overflow : Answer
  out_of_fuel : Answer

module _ {S : Type 0} (drv : Driver S) where
  -- One round of `while (1)`.
  unfoldable pub round : ℕ → List ℕ → Xfer S → Round S
  unfolding give_up on_answer
  round dad rcv x =
      let ((n, sdata, port), t1) = xcv drv x.t1 x.sdata x.slen t1_buffer_size x.port in
      let y = record x {
        t1 = t1;
        sdata = sdata;
        port = port;
        retries = (x.retries + 2 ^ 32 - 1) % 2 ^ 32;
      } in
      elim x.overran [
        | true ↦ overflowed x
        | false ↦ elim n [ negsuc _ ↦ give_up y | pos k ↦ on_answer dad rcv k y ]
      ]

  -- The loop. Nothing bounds its rounds: a card may ask for more time for ever.
  unfoldable pub rounds : ℕ → ℕ → List ℕ → Xfer S → Answer × T1 × S
  unfolding round
  rounds zero dad rcv x = (out_of_fuel, x.t1, x.port)
  rounds (suc fuel) dad rcv x = elim (round dad rcv x) [
    | again y ↦ rounds fuel dad rcv y
    | finished y ↦ (answered (to_int (Buffer.avail y.rbuf)) y.rbuf.base, y.t1, y.port)
    | failed y ↦ (refused, y.t1, y.port)
    | overflowed y ↦ (overflow, y.t1, y.port)
  ]

  -- The state when the first block is built. `junk` is what the stack holds at `sdata`.
  unfoldable pub start : T1 → ℕ → List ℕ → List ℕ → List ℕ → S → Xfer S
  unfolding send_next
  start t dad snd rcv junk port = send_next dad (record {
    t1 = record t { phase = sending };
    port = port;
    sbuf = Buffer.set_full snd (length snd);
    rbuf = Buffer.init rcv (length rcv);
    sdata = junk;
    slen = 0;
    last_send = 0;
    sent_length = 0;
    retries = t.retries;
    resyncs = 3;
    overran = false;
  })

  -- `snd` and `rcv` are the buffers with their lengths.
  unfoldable pub transceive : ℕ → T1 → ℕ → List ℕ → List ℕ → List ℕ → S → Answer × T1 × S
  unfolding start rounds
  transceive fuel t dad snd rcv junk port =
      if length snd == 0 || is_dead t.phase
      then (refused, t, port)
      else rounds fuel dad rcv (start t dad snd rcv junk port)
