-- ===== src/T0/Descends.antt =====
-- A round of the loop of `t0_xcv` in proto-t0.c that is not the last takes a byte to be sent, a byte
-- of room, or one of the null bytes that the card may send.
use open_pgpcard_emu.Base.{
  ℕ, ◌+◌, ◌-◌, ◌%◌, ◌^◌, bit_and, bit_xor, ◌≤◌, ◌<◌, ◌≡◌, refl, true, false, [], ◌∷◌, ◌||◌, ◌==◌,
  arith, ltb, if◌then◌else◌, Bool-cases, ◌⊎◌, inl, inr, Option, none, some, get_or, length, ℤ, pos,
  negsuc, is_neg, write_at,
}
use open_pgpcard_emu.Buffer.{Buf, avail, tailroom, head_bytes, compact, get, reserve, put}
use open_pgpcard_emu.T1.Channel.{Driver, send_command, recv_response}
use open_pgpcard_emu.T0.State.{T0, or_all, t0_send, t0_recv}
use open_pgpcard_emu.T0.Transceive.{
  Xcv, Round, again, finished, failed, returned_early, overflowed, is_sending, take_status,
  transfer, on_byte, round,
}

-- The indices of a buffer are in order, whatever memory lies under it.
abbrev pub IsOrdered : Buf → Type 0
IsOrdered b = (b.head ≤ b.tail) × (b.tail ≤ b.size) × (b.size < 2 ^ 32)

-- What is left to be used up.
abbrev pub fuel_left : {S : Type 0} → ℕ → Xcv S → ℕ
fuel_left max_nulls x =
    (x.sbuf.tail - x.sbuf.head) + (x.rbuf.size - x.rbuf.tail) + (max_nulls - x.null_count)

abbrev pub IsRunning : {S : Type 0} → ℕ → Xcv S → Type 0
IsRunning max_nulls x =
    IsOrdered x.sbuf × IsOrdered x.rbuf × (x.rbuf.head ≡ 0) × (x.null_count ≤ max_nulls)

-- A round goes on only with less left.
abbrev pub Descends : {S : Type 0} → ℕ → ℕ → Round S → Type 0
Descends max_nulls n (again y) = IsRunning max_nulls y × (fuel_left max_nulls y < n)
Descends max_nulls n (finished y) = Unit {0}
Descends max_nulls n (failed y) = Unit {0}
Descends max_nulls n (returned_early y) = Unit {0}
Descends max_nulls n (overflowed s) = Unit {0}

reserve-IsOrdered :
    (n : ℕ) (b : Buf)
    → IsOrdered b
    → b.head ≡ 0
    → let b' = reserve n b in
      IsOrdered b'
      × (b'.head ≡ 0)
      × (b'.size ≡ b.size)
      × (b'.tail ≡ (if ltb (b.size - b.tail) n then b.tail else b.tail + n))
unfolding reserve compact tailroom
reserve-IsOrdered n b (ht, ts, small) front = ground arith

pub get-IsOrdered :
    (n : ℕ) (b : Buf)
    → IsOrdered b
    → n ≤ b.tail - b.head
    → let b' = (get n b).2 in IsOrdered b' × (b'.tail - b'.head ≡ b.tail - b.head - n)
unfolding get avail
get-IsOrdered n b (ht, ts, small) fits = ground arith

pub avail-lt : (b : Buf) → IsOrdered b → avail b ≡ b.tail - b.head
unfolding avail
avail-lt b (ht, ts, small) = omega arith

tailroom-sub : (b : Buf) → IsOrdered b → tailroom b ≡ b.size - b.tail
unfolding tailroom
tailroom-sub b (ht, ts, small) = omega arith

-- The code asks for one byte or for all.
or_all_lem :
    (all : ℕ) (count : ℤ) → or_all 1 count ≡ 1 → (or_all all count ≡ 1) ⊎ (or_all all count ≡ all)
or_all_lem all (pos n) one = inl one
or_all_lem all (negsuc n) one = inr refl

module _ {S : Type 0} (drv : Driver S) (t : T0) (x : Xcv S)
    (running : IsRunning t.max_nulls x) where
  abbrev left : ℕ
  left = fuel_left t.max_nulls x

  send-Descends :
      (count : ℤ)
      → or_all 1 count ≡ 1
      → is_sending t.phase ≡ true
      → Descends t.max_nulls left (transfer drv t count x)
  unfolding transfer t0_send
  send-Descends count one phase =
      let (sbuf, rbuf, front, nulls) = running in
      let n = or_all (avail x.sbuf) count in
      let all = avail-lt x.sbuf sbuf in
      rw phase (elim (Bool-cases (ltb (avail x.sbuf) n || avail x.sbuf == 0)) [
        | inl refused ↦ rw refused tt
        | inr fits ↦
            let sent = send_command drv x.port (head_bytes x.sbuf n) in
            rw fits (elim (Bool-cases (is_neg sent.0)) [
              | inl error ↦ rw error tt
              | inr fine ↦
                  let (sbuf', count') = get-IsOrdered n x.sbuf sbuf (ground arith) in
                  let some_left : 0 < avail x.sbuf = ground arith in
                  let less : 0 < n = elim (or_all_lem (avail x.sbuf) count one) [
                    | inl e ↦ omega arith
                    | inr e ↦ omega arith
                  ] in
                  rw fine ((sbuf', rbuf, front, nulls), omega arith)
            ])
      ])

  receive-Descends :
      (count : ℤ)
      → or_all 1 count ≡ 1
      → is_sending t.phase ≡ false
      → Descends t.max_nulls left (transfer drv t count x)
  unfolding transfer t0_recv
  receive-Descends count one phase =
      let (sbuf, rbuf, front, nulls) = running in
      let n = or_all (tailroom x.rbuf) count in
      let got = recv_response drv x.port n t.timeout in
      let b = record x.rbuf { base = write_at x.rbuf.base x.rbuf.tail got.1 } in
      let (b', front', size', tail') = reserve-IsOrdered n b rbuf front in
      rw phase (elim (Bool-cases (ltb (length x.rbuf.base) (x.rbuf.tail + length got.1))) [
        | inl over ↦ rw over tt
        | inr within ↦ rw within (elim (Bool-cases (is_neg got.0)) [
          | inl error ↦ rw error tt
          | inr fine ↦ rw fine (elim (Bool-cases (tailroom (reserve n b) == 0)) [
            | inl full ↦ rw full tt
            | inr room ↦
                let after = tailroom-sub (reserve n b) b' in
                let before = tailroom-sub x.rbuf rbuf in
                let some_room : (reserve n b).tail < (reserve n b).size = ground arith in
                let less : x.rbuf.tail < (reserve n b).tail =
                  elim (or_all_lem (tailroom x.rbuf) count one) [
                    | inl e ↦ ground arith
                    | inr e ↦ ground arith
                  ] in
                rw room ((sbuf, b', front', nulls), omega arith)
          ])
        ])
      ])

  status-Descends : (byte : ℕ) → Descends t.max_nulls left (take_status drv t byte x)
  unfolding take_status
  status-Descends byte = elim (Bool-cases (is_neg (put (byte ∷ []) x.rbuf).0)) [
    | inl full ↦ rw full tt
    | inr stored ↦
        rw stored (after (t0_recv drv (pos 1) t.timeout (put (byte ∷ []) x.rbuf).1 x.port))
  ]
    where
      after :
          (o : Option (ℤ × Buf × S))
          → Descends t.max_nulls left (elim o [
            | none ↦ overflowed x.port
            | some (r', rbuf', port') ↦
                let y = record x { rbuf = rbuf'; port = port' } in
                if is_neg r' then failed y else finished y
          ])
      after none = tt
      after (some (pos n, rbuf', port')) = tt
      after (some (negsuc n, rbuf', port')) = tt

  transfer-Descends :
      (count : ℤ) → or_all 1 count ≡ 1 → Descends t.max_nulls left (transfer drv t count x)
  transfer-Descends count one = elim (Bool-cases (is_sending t.phase)) [
    | inl sends ↦ send-Descends count one sends
    | inr receives ↦ receive-Descends count one receives
  ]

  on_byte-Descends :
      (ins byte : ℕ)
      → t.max_nulls < 2 ^ 32 - 1
      → Descends t.max_nulls left (on_byte drv t ins byte x)
  unfolding on_byte
  on_byte-Descends ins byte small =
      let (sbuf, rbuf, front, nulls) = running in
      let next = (x.null_count + 1) % 2 ^ 32 in
      elim (Bool-cases (byte == 0x60)) [
        | inl null ↦ rw null (elim (Bool-cases (ltb t.max_nulls next)) [
          | inl too_many ↦ rw too_many tt
          | inr more ↦
              let within : next ≤ t.max_nulls = ground arith in
              rw more ((sbuf, rbuf, front, within), omega arith)
        ])
        | inr other ↦
            rw other (elim (Bool-cases (bit_and byte 0xF0 == 0x60 || bit_and byte 0xF0 == 0x90)) [
              | inl status ↦ rw status (status-Descends byte)
              | inr ack ↦ rw ack (elim (Bool-cases (bit_and (bit_xor byte ins) 0xFE == 0)) [
                | inl all ↦ rw all (transfer-Descends (negsuc 0) refl)
                | inr not_all ↦
                    rw not_all (elim (Bool-cases (bit_and (bit_xor (255 - byte) ins) 0xFE == 0)) [
                      | inl one ↦ rw one (transfer-Descends (pos 1) refl)
                      | inr none_of_it ↦ rw none_of_it tt
                    ])
              ])
            ])
      ]

-- A round goes on only with less left.
pub round-Descends :
    {S : Type 0} (drv : Driver S) (t : T0) (ins junk : ℕ) (x : Xcv S)
    → IsRunning t.max_nulls x
    → t.max_nulls < 2 ^ 32 - 1
    → Descends t.max_nulls (fuel_left t.max_nulls x) (round drv t ins junk x)
unfolding round
round-Descends drv t ins junk x running small =
    let (r, bytes, port) = recv_response drv x.port 1 t.timeout in
    elim (Bool-cases (is_neg r)) [
      | inl error ↦ rw error tt
      | inr fine ↦ rw fine (
          on_byte-Descends drv t (record x { port = port }) running ins (get_or bytes 0 junk % 256)
            small)
    ]
