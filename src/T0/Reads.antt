-- ===== src/T0/Reads.antt =====
-- A command without data over T=0, and its answer in one piece, in proto-t0.c.
use open_pgpcard_emu.Base.{
  ℕ, suc, ◌+◌, ◌-◌, ◌^◌, ◌≤◌, ◌<◌, ◌≡◌, ◌≢◌, refl, ap, ◌∙◌, Bool, true, false, List, [], ◌∷◌, ◌||◌,
  ◌==◌, ◌!=◌, arith, ltb, ap₂, ne→==_false, if◌then◌else◌, Bool-cases, inl, inr, Option, none, some,
  length, ℤ, pos, negsuc, is_neg, bit_and, bit_xor, write_at,
}
use open_pgpcard_emu.Base.Slice.{slice}
use open_pgpcard_emu.Base.Bits.{bit_xor_self}
use open_pgpcard_emu.Apdu.{or_256, iso_apdu_parse, apdu_check}
use open_pgpcard_emu.Buffer
use open_pgpcard_emu.T1.Channel.{Driver, send_command, recv_response}
use open_pgpcard_emu.T0.State.{T0, receiving, idle, confused, t0_send, t0_recv}
use open_pgpcard_emu.T0.Transceive.{
  is_sending, Outcome, returned, overflow, Xcv, Round, again, finished, failed, overflowed, t0_xcv,
  transfer, on_byte, rounds, done, outgoing, from_idle, transceive, is_idle,
}
use open_pgpcard_emu.T0.Rounds.{
  Waits, round-on_byte, rounds-Waits, after_round, init-tailroom, reserve_all,
}

-- The instruction is not taken for a status byte.
abbrev pub IsIns : ℕ → Type 0
IsIns ins = (ins < 256) × (bit_and ins 0xF0 ≢ 0x60) × (bit_and ins 0xF0 ≢ 0x90)

module _ {S : Type 0} (drv : Driver S) (t : T0) (receives : is_sending t.phase ≡ false) where
  -- All the room for the answer is asked for at once.
  recv-all :
      (memory bytes : List ℕ) (rlen m : ℕ) (s s' : S)
      → rlen < 2 ^ 32
      → length bytes ≡ rlen
      → recv_response drv s rlen t.timeout ≡ (pos m, bytes, s')
      → let b =
          Buffer.reserve rlen
            (record (Buffer.init memory rlen) { base = write_at memory 0 bytes }) in
        t0_recv drv (negsuc 0) t.timeout (Buffer.init memory rlen) s
        ≡ (if ltb (length memory) rlen then none else some (pos m, b, s'))
  unfolding t0_recv Buffer.init
  recv-all memory bytes rlen m s s' small size comes =
      let b₀ = Buffer.init memory rlen in
      let store : ℕ → ℤ × List ℕ × S → Option (ℤ × Buffer.Buf × S) = λ n o.
        let b' = record b₀ { base = write_at memory 0 o.1 } in
        if ltb (length memory) (0 + length o.1)
        then none
        else some (o.0, (if is_neg o.0 then b' else Buffer.reserve n b'), o.2) in
      let none_before : 0 + length bytes ≡ rlen = omega arith in
      let b = record b₀ { base = write_at memory 0 bytes } in
      ap (λ (n : ℕ). store n (recv_response drv s n t.timeout)) (init-tailroom memory rlen small)
      ∙ ap (store rlen) comes
      ∙ ap
          (λ (k : ℕ).
            if ltb (length memory) k then none else some (pos m, Buffer.reserve rlen b, s'))
          none_before

  transfer-all :
      (memory bytes : List ℕ) (rlen m : ℕ) (x : Xcv S) (s' : S)
      → rlen < 2 ^ 32
      → length bytes ≡ rlen
      → recv_response drv x.port rlen t.timeout ≡ (pos m, bytes, s')
      → let b =
          Buffer.reserve rlen
            (record (Buffer.init memory rlen) { base = write_at memory 0 bytes }) in
        transfer drv t (negsuc 0) (record x { rbuf = Buffer.init memory rlen }) ≡ (
          if ltb (length memory) rlen
          then overflowed x.port
          else finished (record x { rbuf = b; port = s' }))
  unfolding transfer
  transfer-all memory bytes rlen m x s' small size comes =
      let b =
        Buffer.reserve rlen (record (Buffer.init memory rlen) { base = write_at memory 0 bytes }) in
      let after : Option (ℤ × Buffer.Buf × S) → Round S = λ o. elim o [
        | none ↦ overflowed x.port
        | some (r, rbuf, port) ↦
            let y = record x { rbuf = rbuf; port = port } in
            if is_neg r then failed y else if Buffer.tailroom rbuf == 0 then finished y else again y
      ] in
      let y = record x { rbuf = b; port = s' } in
      let full = (reserve_all memory rlen small (write_at memory 0 bytes)).0 in
      let stored = recv-all memory bytes rlen m x.port s' small size comes in
      rw receives (
        ap after stored ∙ elim (Bool-cases (ltb (length memory) rlen)) [
          | inl over ↦ rw over refl
          | inr within ↦ rw within (ap (λ (c : Bool). if c then finished y else again y) full)
        ])

  -- The instruction as the procedure byte asks for all of it.
  on_byte-ins :
      (ins : ℕ) (x : Xcv S) → IsIns ins → on_byte drv t ins ins x ≡ transfer drv t (negsuc 0) x
  unfolding on_byte
  on_byte-ins ins x (small, not_60, not_90) =
      let other : (ins == 0x60) ≡ false =
        ne→==_false ins 0x60 (λ e. not_60 (ap (λ (b : ℕ). bit_and b 0xF0) e)) in
      let high : (bit_and ins 0xF0 == 0x60 || bit_and ins 0xF0 == 0x90) ≡ false = ground arith in
      let same : bit_and (bit_xor ins ins) 0xFE ≡ 0 =
        ap (λ (b : ℕ). bit_and b 0xFE) (bit_xor_self ins small) in
      rw (other, high, same) refl

  -- What a call of `t0_xcv` gives for `bytes`, which come in one piece.
  abbrev Read : List ℕ → ℕ → List ℕ → S → S → Outcome × T0 × S
  Read memory rlen bytes s s' =
      if ltb (length memory) rlen
      then (overflow, t, s)
      else (returned (pos rlen) (write_at memory 0 bytes), t, s')

  rounds-read :
      (ins junk k : ℕ) (memory bytes : List ℕ) (rlen m : ℕ) (x : Xcv S) (s₃ s' : S)
      → IsIns ins
      → rlen < 2 ^ 32
      → length bytes ≡ rlen
      → recv_response drv x.port 1 t.timeout ≡ (pos 1, ins ∷ [], s₃)
      → recv_response drv s₃ rlen t.timeout ≡ (pos m, bytes, s')
      → rounds drv (suc k) t ins junk (record x { rbuf = Buffer.init memory rlen })
        ≡ Read memory rlen bytes s₃ s'
  unfolding rounds
  rounds-read ins junk k memory bytes rlen m x s₃ s' is_ins small size ack comes =
      let y = record x { rbuf = Buffer.init memory rlen; port = s₃ } in
      let b =
        Buffer.reserve rlen (record (Buffer.init memory rlen) { base = write_at memory 0 bytes }) in
      let (_, count, base) = reserve_all memory rlen small (write_at memory 0 bytes) in
      let step =
        round-on_byte drv t ins junk ins (record x { rbuf = Buffer.init memory rlen }) s₃ is_ins.0
          ack
        ∙ on_byte-ins ins y is_ins
        ∙ transfer-all memory bytes rlen m (record x { port = s₃ }) s' small size comes in
      ap (after_round drv t k ins junk) step ∙ elim (Bool-cases (ltb (length memory) rlen)) [
        | inl over ↦ rw over refl
        | inr within ↦
            rw within (ap₂ (λ (n : ℕ) (l : List ℕ). (returned (pos n) l, t, s')) count base)
      ]

  send-five :
      (a b c d e q : ℕ) (s s₁ : S)
      → send_command drv s (a ∷ b ∷ c ∷ d ∷ e ∷ []) ≡ (pos q, s₁)
      → let buf = Buffer.set_full (a ∷ b ∷ c ∷ d ∷ e ∷ []) 5 in
        t0_send drv (pos 5) buf s ≡ (pos q, (Buffer.get 5 buf).2, s₁)
  unfolding t0_send Buffer.set_full Buffer.init Buffer.avail Buffer.head_bytes slice
  send-five a b c d e q s s₁ sent =
      let buf = Buffer.set_full (a ∷ b ∷ c ∷ d ∷ e ∷ []) 5 in
      ap (λ (o : ℤ × S). (o.0, (if is_neg o.0 then buf else (Buffer.get 5 buf).2), o.1)) sent

  xcv-reads :
      (k junk cla ins p₁ p₂ e q m n : ℕ) (rbuf bytes : List ℕ) (rlen : ℕ) (s s₁ s₂ s₃ s' : S)
      → t.block_oriented ≡ 0
      → IsIns ins
      → rlen < 2 ^ 32
      → t.max_nulls < 2 ^ 32 - 1
      → send_command drv s (cla ∷ ins ∷ p₁ ∷ p₂ ∷ e ∷ []) ≡ (pos q, s₁)
      → Waits drv t.timeout s₁ n s₂
      → n ≤ t.max_nulls
      → recv_response drv s₂ 1 t.timeout ≡ (pos 1, ins ∷ [], s₃)
      → recv_response drv s₃ rlen t.timeout ≡ (pos m, bytes, s')
      → length bytes ≡ rlen
      → t0_xcv drv (n + suc k) t junk (cla ∷ ins ∷ p₁ ∷ p₂ ∷ e ∷ []) 5 rbuf rlen s
        ≡ Read rbuf rlen bytes s₃ s'
  unfolding t0_xcv
  xcv-reads k junk cla ins p₁ p₂ e q m n rbuf bytes rlen s s₁ s₂ s₃ s' bytewise is_ins small nulls
        sent waits few ack comes size =
      let buf = Buffer.set_full (cla ∷ ins ∷ p₁ ∷ p₂ ∷ e ∷ []) 5 in
      let x : ℤ × Buffer.Buf × S → Xcv S =
        λ o. record { port = o.2; sbuf = o.1; rbuf = Buffer.init rbuf rlen; null_count = 0 } in
      let run : ℤ × Buffer.Buf × S → Outcome × T0 × S = λ o.
        if is_neg o.0
        then (returned (negsuc 0) rbuf, record t { phase = confused }, o.2)
        else rounds drv (n + suc k) t ins junk (x o) in
      let y = x (pos q, (Buffer.get 5 buf).2, s₁) in
      let no_blocks : (t.block_oriented != 0) ≡ false = ground arith in
      rw no_blocks (
        ap run (send-five cla ins p₁ p₂ e q s s₁ sent)
        ∙ rounds-Waits drv t ins junk (suc k) n y s₂ waits (omega arith) nulls
        ∙ rounds-read ins junk k rbuf bytes rlen m (record y { port = s₂; null_count = 0 + n }) s₃
            s' is_ins small size ack comes)

-- The command and its answer.
module _ {S : Type 0} (drv : Driver S) (t : T0) (free : is_idle t.phase ≡ true)
    (bytewise : t.block_oriented ≡ 0) where
  -- `t0_transceive`, idle and not block oriented, of a command of five bytes, whose last one is the
  -- length `le` of the answer, 0 for 256, and whose instruction is not 0x6X or 0x9X. The card may
  -- send null bytes while it is busy, as many as are borne, less than 2^32 - 1, then sends the
  -- instruction as the procedure byte, and gives the `le` bytes and its status in one piece. If the
  -- caller's memory, of at least two bytes, has room for them all, they are stored at its start, and
  -- their number is returned; if not, the driver stores them behind that memory. The protocol is idle
  -- again.
  pub transceive-reads :
      (k junk cla ins p₁ p₂ e q m n : ℕ) (rbuf bytes : List ℕ) (s s₁ s₂ s₃ s' : S)
      → IsIns ins
      → e < 256
      → t.max_nulls < 2 ^ 32 - 1
      → 2 ≤ length rbuf
      → send_command drv s (cla ∷ ins ∷ p₁ ∷ p₂ ∷ e ∷ []) ≡ (pos q, s₁)
      → Waits drv t.timeout s₁ n s₂
      → n ≤ t.max_nulls
      → recv_response drv s₂ 1 t.timeout ≡ (pos 1, ins ∷ [], s₃)
      → recv_response drv s₃ (or_256 e + 2) t.timeout ≡ (pos m, bytes, s')
      → length bytes ≡ or_256 e + 2
      → transceive drv (n + suc k) t junk (cla ∷ ins ∷ p₁ ∷ p₂ ∷ e ∷ []) rbuf s ≡ (
          if ltb (length rbuf) (or_256 e + 2) then (overflow, record t { phase = idle }, s₃) else (
            returned (pos (or_256 e + 2)) (write_at rbuf 0 bytes),
            record t { phase = idle },
            s',
          ))
  unfolding transceive from_idle iso_apdu_parse apdu_check outgoing done
  transceive-reads k junk cla ins p₁ p₂ e q m n rbuf bytes s s₁ s₂ s₃ s' is_ins byte nulls room sent
        waits few ack comes size =
      let short : ltb (length rbuf) 2 ≡ false = ground arith in
      let t_r = record t { phase = receiving } in
      let le = or_256 e in
      let fits : le + 2 < 2 ^ 32 = ground arith in
      rw (free, short)
        (ap (done drv) (
            xcv-reads drv t_r refl k junk cla ins p₁ p₂ e q m n rbuf bytes (le + 2) s s₁ s₂ s₃ s'
              bytewise is_ins fits nulls sent waits few ack comes size)
          ∙ elim (Bool-cases (ltb (length rbuf) (le + 2))) [
            | inl over ↦ rw over refl
            | inr within ↦ rw within refl
          ])
