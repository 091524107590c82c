-- ===== src/T1/Kept.antt =====
-- What every handler of a block keeps, in `t1_transceive` of OpenCTDriver/src/ifd/proto-t1.c.
use open_pgpcard_emu.Base.{
  ℕ, ◌+◌, ◌%◌, ◌^◌, ◌<◌, ◌≡◌, refl, ◌∙◌, List, [], ◌∷◌, arith, ◌||◌, ◌==◌, ◌!=◌, ltb, if◌then◌else◌,
  none, some, ◌-◌, Bool, true, false, get_or, length, is_neg, bit_and, bit_or, bit_xor, Bool-cases,
  inl, inr,
}
use open_pgpcard_emu.Base.Slice.{slice}
use open_pgpcard_emu.Buffer
use open_pgpcard_emu.Buffer.{Buf, init}
use open_pgpcard_emu.Buffer.Queue.{content, put-grows, put-refuses}
use open_pgpcard_emu.T1.Block.{
  sending, s_block, receiving, dead, BlockType, block_type, seq, verify_checksum, r_block,
  more_blocks, edc_error, other_error, s_response, s_resync, s_ifs, s_abort, s_wtx,
}
use open_pgpcard_emu.T1.Sent.{IsRoom, IsWhole, IsNext, reply-IsNext, send_next-IsNext}
use open_pgpcard_emu.T1.Transceive.{
  Xfer, Round, again, finished, failed, overflowed, is_sending, is_receiving, is_resynch, pcb_of,
  reply, send_next, give_up, resynchronise, splendid, acknowledge, on_r_block, on_i_block, respond,
  on_s_request, on_s_block, on_block, on_answer,
}

-- A round leaves the buffers so, and a failure leaves the protocol dead; a block was written behind its
-- buffer only with an information field size above 254.
abbrev pub IsKept : {S : Type 0} → ℕ → Round S → Type 0
IsKept n (again x) = IsNext n x
IsKept n (finished x) = IsRoom n x.rbuf
IsKept n (failed x) = x.t1.phase ≡ dead
IsKept n (overflowed x) = 254 < x.t1.ifsc

put-IsRoom : (n : ℕ) (bytes : List ℕ) (b : Buf) → IsRoom n b → IsRoom n (Buffer.put bytes b).1
put-IsRoom n bytes b (wf, size) =
    elim (Bool-cases (ltb b.size (length (content b) + length bytes))) [
      | inl full ↦ let out = put-refuses bytes b wf (ground arith) in (out.1, out.3 ∙ size)
      | inr fits ↦ let out = put-grows bytes b wf (ground arith) in (out.1, out.2 ∙ size)
    ]

pub init-IsRoom : (rcv : List ℕ) → length rcv < 2 ^ 32 → IsRoom (length rcv) (init rcv (length rcv))
unfolding init
init-IsRoom rcv small =
    let same : length rcv % 2 ^ 32 ≡ length rcv = omega arith in
    rw same ((omega arith, omega arith, refl, small), refl)

module _ {S : Type 0} where
  resynchronise-IsKept : (n dad : ℕ) (x : Xfer S) → IsWhole n x → IsKept n (resynchronise dad x)
  unfolding resynchronise give_up
  resynchronise-IsKept n dad x room = elim (Bool-cases (x.resyncs == 0)) [
    | inl spent ↦ rw spent refl
    | inr left ↦
        let y = record x { resyncs = x.resyncs - 1; t1 = record x.t1 { ns = 0; nr = 0 } } in
        rw left (reply-IsNext n dad (bit_or s_block s_resync) none y room)
  ]

  acknowledge-IsWhole : (n : ℕ) (x : Xfer S) → IsWhole n x → IsWhole n (acknowledge x)
  unfolding acknowledge
  acknowledge-IsWhole n x room = room

  on_r_block-IsKept : (n dad : ℕ) (x : Xfer S) → IsWhole n x → IsKept n (on_r_block dad x)
  unfolding on_r_block
  on_r_block-IsKept n dad x room = elim (Bool-cases (bit_and (pcb_of x) 0x0F != 0)) [
    | inl error ↦ rw error (resynchronise-IsKept n dad x room)
    | inr sound ↦ rw sound (elim (Bool-cases (is_receiving x.t1.phase)) [
      | inl asks ↦ rw asks (reply-IsNext n dad r_block none x room)
      | inr sends ↦ rw sends (elim (Bool-cases (seq (pcb_of x) != x.t1.ns)) [
        | inl next ↦ rw next (next_block _ (acknowledge-IsWhole n x room))
        | inr same ↦ rw same (next_block x room)
      ])
    ])
  ]
    where
      next_block :
          (y : Xfer S)
          → IsWhole n y
          → IsKept n
              (if Buffer.avail y.sbuf == 0 then resynchronise dad y else splendid (send_next dad y))
      next_block y room' = elim (Bool-cases (Buffer.avail y.sbuf == 0)) [
        | inl none_left ↦ rw none_left (resynchronise-IsKept n dad y room')
        | inr more ↦ rw more (send_next-IsNext n dad y room')
      ]

  on_i_block-IsKept : (n dad : ℕ) (x : Xfer S) → IsWhole n x → IsKept n (on_i_block dad x)
  unfolding on_i_block give_up
  on_i_block-IsKept n dad x room =
      take_data (if is_sending x.t1.phase then acknowledge x else x)
        (acked-IsWhole (is_sending x.t1.phase))
    where
      -- The rest of the handler, from the state with the last block acknowledged.
      rest : Xfer S → Round S
      rest acked =
          let y = record acked { t1 = record acked.t1 { phase = receiving } } in
          if seq (pcb_of x) != y.t1.nr
          then again (reply dad (bit_or r_block other_error) none y)
          else let (r, rbuf) = Buffer.put (slice 3 (get_or x.sdata 2 0) x.sdata) y.rbuf in
            let z = record y { rbuf = rbuf; t1 = record y.t1 { nr = bit_xor y.t1.nr 1 } } in
            if is_neg r
            then give_up z
            else if bit_and (pcb_of x) more_blocks == 0
            then finished z
            else splendid (reply dad r_block none z)

      acked-IsWhole : (b : Bool) → IsWhole n (if b then acknowledge x else x)
      acked-IsWhole true = acknowledge-IsWhole n x room
      acked-IsWhole false = room

      take_data : (acked : Xfer S) → IsWhole n acked → IsKept n (rest acked)
      take_data acked room' =
          let bytes = slice 3 (get_or x.sdata 2 0) x.sdata in
          let (r, rbuf) = Buffer.put bytes acked.rbuf in
          let y = record acked { t1 = record acked.t1 { phase = receiving } } in
          let z = record y { rbuf = rbuf; t1 = record y.t1 { nr = bit_xor y.t1.nr 1 } } in
          let room'' = put-IsRoom n bytes acked.rbuf room'.0 in
          elim (Bool-cases (seq (pcb_of x) != acked.t1.nr)) [
            | inl other ↦ rw other (reply-IsNext n dad (bit_or r_block other_error) none y room')
            | inr awaited ↦ rw awaited (elim (Bool-cases (is_neg (Buffer.put bytes acked.rbuf).0)) [
              | inl full ↦ rw full refl
              | inr stored ↦ rw stored (elim (Bool-cases (bit_and (pcb_of x) more_blocks == 0)) [
                | inl last ↦ rw last room''
                | inr more ↦ rw more (reply-IsNext n dad r_block none z (room'', room'.1))
              ])
            ])
          ]

  respond-IsKept :
      (n dad pcb : ℕ) (body : List ℕ) (x : Xfer S) → IsWhole n x → IsKept n (respond dad pcb body x)
  unfolding respond
  respond-IsKept n dad pcb body x room =
      reply-IsNext n dad (bit_or (bit_or s_block s_response) (bit_and pcb 0x0F))
        (some (Buffer.put body (Buffer.init (0 ∷ 0 ∷ 0 ∷ 0 ∷ 0 ∷ []) 5)).1) x room

  on_s_request-IsKept : (n dad : ℕ) (x : Xfer S) → IsWhole n x → IsKept n (on_s_request dad x)
  unfolding on_s_request
  on_s_request-IsKept n dad x room =
      let kind = bit_and (pcb_of x) 0x0F in
      let info = get_or x.sdata 3 0 in
      let refuse = resynchronise-IsKept n dad x room in
      elim (Bool-cases (kind == s_resync)) [
        | inl is_resync ↦ rw is_resync refuse
        | inr no_resync ↦ rw no_resync (elim (Bool-cases (kind == s_abort)) [
          | inl is_abort ↦ rw is_abort (respond-IsKept n dad (pcb_of x) [] x room)
          | inr no_abort ↦ rw no_abort (elim (Bool-cases (kind == s_ifs)) [
            | inl is_ifs ↦ rw is_ifs (elim (Bool-cases (info == 0)) [
              | inl zero_size ↦ rw zero_size refuse
              | inr sized ↦ rw sized (
                  respond-IsKept n dad (pcb_of x) (info ∷ [])
                    (record x { t1 = record x.t1 { ifsc = info } }) room)
            ])
            | inr no_ifs ↦ rw no_ifs (elim (Bool-cases (kind == s_wtx)) [
              | inl is_wtx ↦ rw is_wtx (
                  respond-IsKept n dad (pcb_of x) (info ∷ [])
                    (record x { t1 = record x.t1 { wtx = info } }) room)
              | inr unknown ↦ rw unknown refuse
            ])
          ])
        ])
      ]

  on_s_block-IsKept :
      (dad : ℕ) (rcv : List ℕ) (x : Xfer S)
      → length rcv < 2 ^ 32
      → IsWhole (length rcv) x
      → IsKept (length rcv) (on_s_block dad rcv x)
  unfolding on_s_block
  on_s_block-IsKept dad rcv x small room = elim (Bool-cases (bit_and (pcb_of x) s_response != 0)) [
    | inl is_response ↦ rw is_response (elim (Bool-cases (is_resynch x.t1.phase)) [
      | inl awaited ↦ rw awaited (
          send_next-IsNext (length rcv) dad
            (record x {
              t1 = record x.t1 { phase = sending };
              sent_length = 0;
              last_send = 0;
              resyncs = 3;
              retries = x.t1.retries;
              rbuf = init rcv (length rcv);
            })
            (init-IsRoom rcv small, room.1))
      | inr other ↦ rw other (resynchronise-IsKept (length rcv) dad x room)
    ])
    | inr is_request ↦ rw is_request (on_s_request-IsKept (length rcv) dad x room)
  ]

  on_block-IsKept :
      (kind : BlockType) (dad : ℕ) (rcv : List ℕ) (x : Xfer S)
      → length rcv < 2 ^ 32
      → IsWhole (length rcv) x
      → IsKept (length rcv) (on_block kind dad rcv x)
  unfolding on_block
  on_block-IsKept BlockType.r dad rcv x small room = on_r_block-IsKept (length rcv) dad x room
  on_block-IsKept BlockType.i dad rcv x small room = on_i_block-IsKept (length rcv) dad x room
  on_block-IsKept BlockType.s dad rcv x small room = on_s_block-IsKept dad rcv x small room

  pub on_answer-IsKept :
      (dad : ℕ) (rcv : List ℕ) (k : ℕ) (x : Xfer S)
      → length rcv < 2 ^ 32
      → IsWhole (length rcv) x
      → IsKept (length rcv) (on_answer dad rcv k x)
  unfolding on_answer
  on_answer-IsKept dad rcv k x small room =
      elim (Bool-cases (verify_checksum x.t1.csum k x.sdata)) [
        | inl intact ↦ rw intact (on_block-IsKept (block_type (pcb_of x)) dad rcv x small room)
        | inr damaged ↦ rw damaged (elim (Bool-cases (x.retries == 0 || x.sent_length != 0)) [
          | inl no_retry ↦ rw no_retry (resynchronise-IsKept (length rcv) dad x room)
          | inr retry ↦
              rw retry (reply-IsNext (length rcv) dad (bit_or r_block edc_error) none x room)
        ])
      ]
