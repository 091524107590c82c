-- ===== src/Cardemu/NoData.antt =====
-- `cardemu_recv` tests an answer's kind by `!= ANS_CARD_DATA || != ANS_CARD_EOD`, which every
-- kind passes.
use open_pgpcard_emu.Base.{ℕ, zero, suc, ◌≡◌, ◌⊎◌, refl, Bool, true, false, [], arith, pos, negsuc}
use open_pgpcard_emu.Base.Run.{Result, ok, err}
use native.Mathlib.Numerals.{add-one}
use open_pgpcard_emu.Frame.{req_card_read, req_card_read_complete}
use open_pgpcard_emu.Cardemu.Session.{
  Host, Session, Failure, outer, inner, overrun, no_fuel, send_message, recv_message, poke, begin,
}
use open_pgpcard_emu.Cardemu.Resync.{resync, cmd_timeout}
use open_pgpcard_emu.Cardemu.Retry.{
  Outcome, broke_outer, broke_inner, exhausted, retry, request, receive, answer,
}
use open_pgpcard_emu.Cardemu.Reset.{returned}
use open_pgpcard_emu.Cardemu.Transmit.{encode_uint16, read_data, recv_try, after_read, finish, recv}

-- A try that stopped with an error for which the driver resynchronises.
abbrev is_stop : Result Failure (Unit {0}) → Bool
is_stop (ok a) = false
is_stop (err outer) = true
is_stop (err inner) = true
is_stop (err overrun) = false
is_stop (err no_fuel) = false

abbrev is_left : Outcome (Unit {0}) → Bool
is_left broke_outer = true
is_left broke_inner = true
is_left exhausted = true
is_left _ = false

module _ {S : Type 0} (host : Host S) where
  -- The loop that reads gives up at its first answer.
  read_data-stops :
      (fuel len : ℕ) (s : Session S)
      → s.got ≡ []
      → (is_stop (read_data host (suc fuel) len s).0 ≡ true)
        × ((read_data host (suc fuel) len s).1.got ≡ [])
  unfolding read_data receive answer recv_message
  read_data-stops fuel len s e = rw e (ground arith)

  request-stops :
      (mask n : ℕ) (s : Session S)
      → ((request host outer mask n s).0 ≡ ok tt) ⊎ ((request host outer mask n s).0 ≡ err outer)
  unfolding request send_message
  request-stops mask n s = ground arith

  request-got : (mask n : ℕ) (s : Session S) → (request host outer mask n s).1.got ≡ s.got
  unfolding request send_message
  request-got mask n s = ground arith

  recv_try-stops :
      (len : ℕ) (s : Session S)
      → s.got ≡ []
      → (is_stop (recv_try host len s).0 ≡ true) × ((recv_try host len s).1.got ≡ [])
  unfolding recv_try encode_uint16 poke
  recv_try-stops len s e =
      let s₁ = encode_uint16 host len s in
      let s₂ = (request host outer req_card_read 2 s₁).1 in
      ground (
        arith,
        request-stops req_card_read 2 s₁,
        request-got req_card_read 2 s₁,
        read_data-stops len len (record s₂ { got = [] }) refl,
        add-one len,
      )

  retry-left :
      (n len : ℕ) (s : Session S)
      → s.got ≡ []
      → (is_left (retry host n (recv_try host len) s).0 ≡ true)
        × ((retry host n (recv_try host len) s).1.got ≡ [])
  unfolding retry
  retry-left zero len s e = (refl, e)
  retry-left (suc n) len s e =
      let s₁ = (recv_try host len s).1 in
      let port₂ = (resync host s₁.port).1 in
      ground (arith, recv_try-stops len s e, retry-left n len (record s₁ { port = port₂ }))

  finish-codes :
      (mask timeout : ℕ) (s : Session S)
      → ((finish host mask timeout (pos 0) [] s).0 ≡ returned (pos 0) [])
        ⊎ ((finish host mask timeout (pos 0) [] s).0 ≡ returned (negsuc 0) [])
  unfolding finish
  finish-codes mask timeout s = ground arith

  -- `cardemu_recv` never hands on any data, whatever the device does and sends: it returns 0 or
  -- -1, and the caller's buffer stays as it is.
  pub recv-no_data :
      (len : ℕ) (port : S)
      → ((recv host len port).0 ≡ returned (pos 0) [])
        ⊎ ((recv host len port).0 ≡ returned (negsuc 0) [])
  unfolding recv after_read
  recv-no_data len port =
      let out = retry host 3 (recv_try host len) (begin host port) in
      ground (
        arith,
        retry-left 3 len (begin host port) refl,
        finish-codes req_card_read_complete cmd_timeout out.1,
      )
