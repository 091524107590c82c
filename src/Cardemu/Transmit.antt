-- ===== src/Cardemu/Transmit.antt =====
-- `encode_uint16_t`, `cardemu_send` and `cardemu_recv`.
use open_pgpcard_emu.Base.{
  ℕ, zero, suc, ◌+◌, ◌/◌, bit_and, true, false, not, List, [], ◌++◌, ◌||◌, ◌&&◌, ◌==◌, ◌!=◌, ltb,
  leb, if◌then◌else◌, ℤ, pos, take, drop, length,
}
use open_pgpcard_emu.Base.Run.{ok, err, Run, ◌>>=◌, ◌>>◌, require, lift}
use open_pgpcard_emu.Device.{error_generic}
use open_pgpcard_emu.Frame.{
  outside, cmd_hdr_size, cmd_max_plsz, req_card_send, req_card_commit, req_card_read,
  req_card_read_complete, ans_ok, ans_card_data, ans_card_eod, get_remsize, get_payload,
  calc_payload_size,
}
use open_pgpcard_emu.Cardemu.Session.{
  Host, Session, Failure, outer, begin, inner, overrun, no_fuel, poke, send_message,
}
use open_pgpcard_emu.Cardemu.Resync.{cmd_timeout}
use open_pgpcard_emu.Cardemu.Retry.{
  Outcome, done, broke_outer, broke_inner, exhausted, overran, unfinished, retry, request, receive,
  answer, max_cmd_tries,
}
use open_pgpcard_emu.Cardemu.Reset.{Reply, returned, undefined, out_of_fuel}

abbrev pub commit_timeout : ℕ
commit_timeout = 10000

module _ {S : Type 0} (host : Host S) where
  -- Two bytes at `sendBuffer + CMD_HDR_SIZE`, the low one first.
  unfoldable pub encode_uint16 : ℕ → Session S → Session S
  encode_uint16 value s =
      poke host (cmd_hdr_size + 1) (bit_and (value / 256) 0xFF)
        (poke host cmd_hdr_size (bit_and value 0xFF) s)

  -- A command with no payload that must be answered by ANS_OK.
  unfoldable pub command_try : ℕ → ℕ → Run (Session S) Failure (Unit {0})
  command_try mask timeout = do
    request host outer mask 0
    receive host outer timeout
    ans ← answer host
    require (ans == ans_ok) outer

  -- One package, and its acknowledgement.
  unfoldable pub send_package : List ℕ → ℕ → Run (Session S) Failure (Unit {0})
  send_package target pkg_len = do
    (msg_len, sent) ← lift (send_message host req_card_send (outside target) pkg_len)
    require (sent == msg_len) inner
    receive host inner cmd_timeout
    ans ← answer host
    require (ans == ans_ok) inner

  -- `CMD_MAX_PLSZ > targetLen ? targetLen : CMD_MAX_PLSZ`
  abbrev pub package_len : List ℕ → ℕ
  package_len target = if ltb (length target) cmd_max_plsz then length target else cmd_max_plsz

  -- `while (targetLen > 0)`: the bytes in packages of at most 14.
  unfoldable pub send_packages : ℕ → List ℕ → Run (Session S) Failure (Unit {0})
  unfolding send_package
  send_packages zero target s = elim (length target == 0) [
    | true ↦ (ok tt, s)
    | false ↦ (err no_fuel, s)
  ]
  send_packages (suc fuel) target s = elim (length target == 0) [
    | true ↦ (ok tt, s)
    | false ↦
        (send_package target (package_len target)
            >> send_packages fuel (drop (package_len target) target))
          s
  ]

  -- Announce the length, then send the bytes. Every round sends at least one byte, so as many
  -- rounds as there are bytes are enough.
  unfoldable pub send_try : List ℕ → Run (Session S) Failure (Unit {0})
  send_try bytes = do
    lift (λ s. (tt, encode_uint16 (length bytes) s))
    request host outer req_card_send 2
    receive host outer cmd_timeout
    ans ← answer host
    require (ans == ans_ok) outer
    send_packages (length bytes) bytes

  -- What follows the loop that sent the data, with `then_do` for the code behind the tests of
  -- `error` and `tr`.
  unfoldable pub after_data : Outcome (Unit {0}) → (Session S → Reply × S) → Session S → Reply × S
  after_data (done _) then_do s = then_do s
  after_data broke_outer then_do s = then_do s
  after_data broke_inner then_do s = (returned error_generic [], s.port)
  after_data exhausted then_do s = (returned error_generic [], s.port)
  after_data overran then_do s = (undefined, s.port)
  after_data unfinished then_do s = (out_of_fuel, s.port)

  -- The last loop, and the return code: `value` unless all tries are used up.
  unfoldable pub finish : ℕ → ℕ → ℤ → List ℕ → Session S → Reply × S
  finish mask timeout value bytes s =
      let (out, s') = retry host max_cmd_tries (command_try mask timeout) s in
      elim out [
        | exhausted ↦ (returned error_generic bytes, s'.port)
        | _ ↦ (returned value bytes, s'.port)
      ]

  -- `buffer` and `len` as one list. The device is open: `dev` is no null pointer.
  unfoldable pub send : List ℕ → S → Reply × S
  unfolding after_data finish
  send bytes port =
      if ltb 0xFFFF (length bytes)
      then (returned error_generic [], port)
      else let (out, s) = retry host max_cmd_tries (send_try bytes) (begin host port) in
        after_data out (finish req_card_commit commit_timeout (pos 0) []) s

  -- `while (dr <= len)`, with `dr` the number of bytes in `got`.
  unfoldable pub read_data : ℕ → ℕ → Run (Session S) Failure (Unit {0})
  read_data zero len s = elim (leb (length s.got) len) [
    | false ↦ (ok tt, s)
    | true ↦ (err no_fuel, s)
  ]
  read_data (suc fuel) len s = elim (leb (length s.got) len) [
    | false ↦ (ok tt, s)
    | true ↦
        (do
          receive host inner cmd_timeout
          ans ← answer host
          require (not (ans != ans_card_data || ans != ans_card_eod)) inner
          require (not (length s.got == len && ans != ans_card_eod)) inner
          λ s'.
              let pl_len = calc_payload_size (get_remsize s'.buff) in
              elim (ans == ans_card_eod) [
                | true ↦ (ok tt, s')
                | false ↦ elim (leb (length s'.got + pl_len) len) [
                  | false ↦ (err overrun, s')
                  | true ↦
                      read_data fuel len
                        (record s' { got = s'.got ++ take pl_len (get_payload s'.buff) })
                ]
              ])
          s
  ]

  unfoldable pub recv_try : ℕ → Run (Session S) Failure (Unit {0})
  recv_try len = do
    lift (λ s. (tt, encode_uint16 len s))
    request host outer req_card_read 2
    lift (λ s. (tt, record s { got = [] }))
    read_data (len + 1) len

  -- What follows the loop that reads.
  unfoldable pub after_read : Outcome (Unit {0}) → Session S → Reply × S
  unfolding finish
  after_read (done _) s = finish req_card_read_complete cmd_timeout (pos (length s.got)) s.got s
  after_read broke_outer s = finish req_card_read_complete cmd_timeout (pos (length s.got)) s.got s
  after_read broke_inner s = (returned error_generic s.got, s.port)
  after_read exhausted s = (returned error_generic s.got, s.port)
  after_read overran s = (undefined, s.port)
  after_read unfinished s = (out_of_fuel, s.port)

  -- The length is `len`, and the bytes stored in the caller's buffer are in the reply.
  unfoldable pub recv : ℕ → S → Reply × S
  unfolding after_read
  recv len port =
      if ltb 0xFFFF len
      then (returned error_generic [], port)
      else let (out, s) = retry host max_cmd_tries (recv_try len) (begin host port) in
        after_read out s
