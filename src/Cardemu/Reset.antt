-- ===== src/Cardemu/Reset.antt =====
-- `cardemu_card_reset` and `cardemu_activate`.
use open_pgpcard_emu.Base.{
  ℕ, zero, suc, ◌-◌, true, false, List, [], ◌++◌, ◌==◌, ◌!=◌, ltb, leb, if◌then◌else◌, ℤ, pos,
  is_neg, get_or, take, length,
}
use open_pgpcard_emu.Base.Run.{ok, err, Run, ◌>>=◌, ◌>>◌, require, lift}
use open_pgpcard_emu.Device.{error_generic, error_invalid_slot}
use open_pgpcard_emu.Frame.{
  cmd_hdr_size, req_card_status, ans_card_present, get_remsize, get_payload, calc_payload_size,
}
use open_pgpcard_emu.Cardemu.Session.{
  Host, Session, Failure, outer, begin, inner, overrun, no_fuel, poke,
}
use open_pgpcard_emu.Cardemu.Resync.{cmd_timeout}
use open_pgpcard_emu.Cardemu.Retry.{
  Outcome, done, broke_outer, broke_inner, exhausted, overran, unfinished, retry, request, receive,
  answer, max_cmd_tries,
}

-- What a call that fills the caller's memory comes to: a return code with the bytes stored, a
-- write behind the end of an array, or a loop that the fuel does not cover.
pub data Reply : Type 0 where
  returned : ℤ → List ℕ → Reply
  undefined : Reply
  out_of_fuel : Reply

module _ {S : Type 0} (host : Host S) where
  -- `while (rem > 0)`: collect the answer to reset in `atrBuff`, of which `got` is filled. A part
  -- that is longer than what is missing is written behind the end of `atrBuff`.
  unfoldable pub read_atr : ℕ → ℕ → List ℕ → Run (Session S) Failure (List ℕ)
  read_atr zero rem got s = elim (rem == 0) [ true ↦ (ok got, s) | false ↦ (err no_fuel, s) ]
  read_atr (suc fuel) rem got s = elim (rem == 0) [
    | true ↦ (ok got, s)
    | false ↦
        (do
          receive host inner cmd_timeout
          ans ← answer host
          require (ans == ans_card_present) inner
          λ s'.
              let part_len = calc_payload_size (get_remsize s'.buff) in
              elim (leb part_len rem) [
                | false ↦ (err overrun, s')
                | true ↦
                    read_atr fuel (rem - part_len) (got ++ take part_len (get_payload s'.buff)) s'
              ])
          s
  ]

  unfoldable pub reset_try : ℕ → Run (Session S) Failure (List ℕ)
  reset_try fuel = do
    lift (λ s. (tt, poke host cmd_hdr_size 1 s))
    request host outer req_card_status 1
    receive host outer cmd_timeout
    ans ← answer host
    require (ans == ans_card_present) outer
    λ s. read_atr fuel (get_or s.buff cmd_hdr_size 0) [] s

  unfoldable pub reset_reply : ℕ → Outcome (List ℕ) → Reply
  reset_reply size (done atr) =
      let n = if ltb (length atr) size then length atr else size in returned (pos n) (take n atr)
  reset_reply size broke_outer = returned error_generic []
  reset_reply size broke_inner = returned error_generic []
  reset_reply size exhausted = returned error_generic []
  reset_reply size overran = undefined
  reset_reply size unfinished = out_of_fuel

  -- `fuel` bounds the messages of one answer to reset.
  unfoldable pub card_reset : ℕ → ℕ → ℕ → S → Reply × S
  unfolding reset_reply
  card_reset fuel slot size port =
      if slot != 0
      then (returned error_invalid_slot [], port)
      else let (out, s) = retry host max_cmd_tries (reset_try fuel) (begin host port) in
        (reset_reply size out, s.port)

  unfoldable pub activate_reply : Reply → Reply
  activate_reply (returned code bytes) = returned (if is_neg code then error_generic else pos 0) []
  activate_reply undefined = undefined
  activate_reply out_of_fuel = out_of_fuel

  unfoldable pub activate : ℕ → S → Reply × S
  unfolding activate_reply
  activate fuel port = let (r, port') = card_reset fuel 0 1 port in (activate_reply r, port')
