-- ===== src/T0/Transceive.antt =====
-- `t0_xcv` and `t0_transceive`: a command and its answer.
use open_pgpcard_emu.Base.{
  ℕ, zero, suc, ◌+◌, ◌-◌, ◌%◌, ◌^◌, bit_and, bit_xor, Bool, true, false, List, [], ◌∷◌, ◌&&◌, ◌||◌,
  ◌==◌, ◌!=◌, ltb, if◌then◌else◌, Option, none, some, get_or, take, length, ℤ, pos, negsuc, is_neg,
  write_at,
}
use open_pgpcard_emu.Apdu.{Iso, Case, case_1, case_2s, case_3s, case_4s, iso_apdu_parse}
use open_pgpcard_emu.Buffer
use open_pgpcard_emu.Buffer.{Buf}
use open_pgpcard_emu.Atr.{error_comm_error}
use open_pgpcard_emu.T1.Channel.{Driver, send_command, recv_response}
use open_pgpcard_emu.T0.State.{
  Phase, idle, sending, receiving, confused, T0, t0_resynch, t0_send, t0_recv,
}

-- How a call ends: its result and the memory of the answer, a write of the driver behind that
-- memory, or more rounds than the fuel.
pub data Outcome : Type 0 where
  returned : ℤ → List ℕ → Outcome
  overflow : Outcome
  out_of_fuel : Outcome

-- The variables of the loop.
pub record Xcv (S : Type 0) : Type 0 where
  pub port : S
  pub sbuf : Buf
  pub rbuf : Buf
  pub null_count : ℕ

-- How a round of `while (1)` ends: with another, by `break`, at the label `failed`, by `return -1`.
pub data Round (S : Type 0) : Type 0 where
  again finished failed returned_early : Xcv S → Round S
  overflowed : S → Round S

abbrev pub is_idle : Phase → Bool
is_idle idle = true
is_idle _ = false

abbrev pub is_sending : Phase → Bool
is_sending sending = true
is_sending _ = false

module _ {S : Type 0} (drv : Driver S) where
  -- SW1 is stored, then SW2 is received.
  unfoldable pub take_status : T0 → ℕ → Xcv S → Round S
  unfolding t0_recv
  take_status t byte x =
      let (r, rbuf) = Buffer.put (byte ∷ []) x.rbuf in
      if is_neg r
      then failed (record x { rbuf = rbuf })
      else elim (t0_recv drv (pos 1) t.timeout rbuf x.port) [
        | none ↦ overflowed x.port
        | some (r', rbuf', port') ↦
            let y = record x { rbuf = rbuf'; port = port' } in
            if is_neg r' then failed y else finished y
      ]

  -- The card wants `count` bytes, or gives them.
  unfoldable pub transfer : T0 → ℤ → Xcv S → Round S
  unfolding t0_send t0_recv
  transfer t count x =
      if is_sending t.phase
      then (let (r, sbuf, port) = t0_send drv count x.sbuf x.port in
          let y = record x { sbuf = sbuf; port = port } in if is_neg r then failed y else again y)
      else elim (t0_recv drv count t.timeout x.rbuf x.port) [
        | none ↦ overflowed x.port
        | some (r, rbuf, port) ↦
            let y = record x { rbuf = rbuf; port = port } in
            if is_neg r then failed y else if Buffer.tailroom rbuf == 0 then finished y else again y
      ]

  -- What the procedure byte of the card asks for.
  unfoldable pub on_byte : T0 → ℕ → ℕ → Xcv S → Round S
  unfolding take_status transfer
  on_byte t ins byte x =
      if byte == 0x60
      then (let y = record x { null_count = (x.null_count + 1) % 2 ^ 32 } in
          if ltb t.max_nulls y.null_count then failed y else again y)
      else if bit_and byte 0xF0 == 0x60 || bit_and byte 0xF0 == 0x90
      then take_status t byte x
      else if bit_and (bit_xor byte ins) 0xFE == 0
      then transfer t (negsuc 0) x
      else if bit_and (bit_xor (255 - byte) ins) 0xFE == 0
      then transfer t (pos 1) x
      else returned_early x

  -- One round. `junk` is what the stack holds at `byte`.
  unfoldable pub round : T0 → ℕ → ℕ → Xcv S → Round S
  unfolding on_byte
  round t ins junk x =
      let (r, bytes, port) = recv_response drv x.port 1 t.timeout in
      let y = record x { port = port } in
      if is_neg r then failed y else on_byte t ins (get_or bytes 0 junk % 256) y

  unfoldable pub rounds : ℕ → T0 → ℕ → ℕ → Xcv S → Outcome × T0 × S
  unfolding round
  rounds zero t ins junk x = (out_of_fuel, t, x.port)
  rounds (suc fuel) t ins junk x = elim (round t ins junk x) [
    | again y ↦ rounds fuel t ins junk y
    | finished y ↦ (returned (pos (Buffer.avail y.rbuf)) y.rbuf.base, t, y.port)
    | failed y ↦ (returned (negsuc 0) y.rbuf.base, record t { phase = confused }, y.port)
    | returned_early y ↦ (returned (negsuc 0) y.rbuf.base, t, y.port)
    | overflowed s ↦ (overflow, t, s)
  ]

  -- The first `slen` bytes of `sdata` are sent; the answer goes to `memory`, taken to hold `rlen`.
  unfoldable pub t0_xcv : ℕ → T0 → ℕ → List ℕ → ℕ → List ℕ → ℕ → S → Outcome × T0 × S
  unfolding rounds t0_send
  t0_xcv fuel t junk sdata slen memory rlen s =
      if t.block_oriented != 0
      then (let (r, s₁) = send_command drv s (take slen sdata) in
          if is_neg r
          then (returned r memory, t, s₁)
          else let (r', bytes, s₂) = recv_response drv s₁ rlen t.timeout in
            if ltb (length memory) (length bytes)
            then (overflow, t, s₂)
            else (returned r' (write_at memory 0 bytes), t, s₂))
      else let sbuf = Buffer.set_full sdata slen in
        let (r, sbuf', s') = t0_send drv (pos 5) sbuf s in
        if is_neg r
        then (returned (negsuc 0) memory, record t { phase = confused }, s')
        else rounds fuel t (get_or sdata 1 0) junk
            (record { port = s'; sbuf = sbuf'; rbuf = Buffer.init memory rlen; null_count = 0 })

  -- The label `done`.
  unfoldable pub done : Outcome × T0 × S → Outcome × T0 × S
  done (o, t, s) = (o, record t { phase = idle }, s)

  -- How many bytes a Get Response asks for, or `none` if the card has refused the command.
  unfoldable pub response_length : ℕ → ℕ → ℕ → Option ℕ
  response_length sw₁ sw₂ le =
      if sw₁ == 0x61
      then some (if sw₂ != 0 && ltb sw₂ le then sw₂ else le)
      else if bit_and sw₁ 0xF0 == 0x60
      then none
      else some le

  -- Behind the sending of a case 4 command, with two bytes of status in `memory`.
  unfoldable pub get_response : ℕ → ℕ → ℕ → ℕ → List ℕ → T0 → S → Outcome × T0 × S
  unfolding done response_length t0_xcv
  get_response fuel junk cla le memory t s =
      elim (response_length (get_or memory 0 0) (get_or memory 1 0) le) [
        | none ↦ done (returned (pos 2) memory, t, s)
        | some n ↦ done (
            t0_xcv fuel (record t { phase = receiving }) junk
              (cla ∷ 0xC0 ∷ 0x00 ∷ 0x00 ∷ n % 256 ∷ []) 5 memory (n + 2) s)
      ]

  -- Behind the sending of a command with data.
  unfoldable pub after_send : ℕ → ℕ → Iso → Outcome × T0 × S → Outcome × T0 × S
  unfolding done get_response
  after_send fuel junk iso (returned (negsuc e) memory, t, s) = (returned (negsuc e) memory, t, s)
  after_send fuel junk iso (returned (pos rc) memory, t, s) =
      if ltb 2 rc
      then done (returned (pos rc) memory, t, s)
      else if rc != 2
      then (returned error_comm_error memory, t, s)
      else elim iso.cse [
        | case_4s ↦ get_response fuel junk iso.cla iso.le memory t s
        | _ ↦ done (returned (pos rc) memory, t, s)
      ]
  after_send fuel junk iso (overflow, t, s) = (overflow, t, s)
  after_send fuel junk iso (out_of_fuel, t, s) = (out_of_fuel, t, s)

  -- The bytes that go out, and their number.
  unfoldable pub outgoing : Case → List ℕ → List ℕ × ℕ
  outgoing case_1 sbuf =
      (get_or sbuf 0 0 ∷ get_or sbuf 1 0 ∷ get_or sbuf 2 0 ∷ get_or sbuf 3 0 ∷ 0 ∷ [], 5)
  outgoing case_2s sbuf = (sbuf, length sbuf)
  outgoing case_3s sbuf = (sbuf, length sbuf)
  outgoing case_4s sbuf = (sbuf, length sbuf - 1)

  unfoldable pub from_idle : ℕ → T0 → ℕ → List ℕ → List ℕ → S → Outcome × T0 × S
  unfolding outgoing after_send done t0_xcv
  from_idle fuel t junk sbuf rbuf s =
      if ltb (length sbuf) 4 || ltb (length rbuf) 2
      then (returned (negsuc 0) rbuf, t, s)
      else elim (iso_apdu_parse sbuf) [
        | none ↦ (returned (negsuc 0) rbuf, t, s)
        | some iso ↦
            let (sdata, slen) = outgoing iso.cse sbuf in
            if iso.lc != 0
            then after_send fuel junk iso
                (t0_xcv fuel (record t { phase = sending }) junk sdata slen rbuf (length rbuf) s)
            else done
                (t0_xcv fuel (record t { phase = receiving }) junk sdata slen rbuf (iso.le + 2) s)
      ]

  -- `sbuf` and `rbuf` are the buffers with their lengths. The fuel is for each call of `t0_xcv`.
  unfoldable pub transceive : ℕ → T0 → ℕ → List ℕ → List ℕ → S → Outcome × T0 × S
  unfolding t0_resynch from_idle
  transceive fuel t junk sbuf rbuf s =
      if is_idle t.phase
      then from_idle fuel t junk sbuf rbuf s
      else if is_neg (t0_resynch t)
      then (returned (negsuc 0) rbuf, t, s)
      else from_idle fuel (record t { phase = idle }) junk sbuf rbuf s
