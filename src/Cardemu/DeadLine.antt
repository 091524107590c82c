-- ===== src/Cardemu/DeadLine.antt =====
-- The entries on a line that takes no byte.
use open_pgpcard_emu.Base.{
  ℕ, zero, suc, ◌+◌, ◌≤◌, ◌≡◌, refl, true, false, List, [], arith, ℤ, pos, negsuc, length, take,
  is_neg, none,
}
use open_pgpcard_emu.Base.Run.{Run, err}
use open_pgpcard_emu.Device.{device_send}
use open_pgpcard_emu.Line.{comm_send}
use open_pgpcard_emu.Frame.{req_card_commit, message, inside}
use open_pgpcard_emu.Cardemu.Session.{Host, Session, Failure, outer, send_message, poke, begin}
use open_pgpcard_emu.Cardemu.Resync.{resync, resync_tries, resync_round}
use open_pgpcard_emu.Cardemu.Retry.{broke_outer, retry, request}
use open_pgpcard_emu.Cardemu.Reset.{returned, card_reset, reset_try}
use open_pgpcard_emu.Cardemu.Status.{card_status, status_try}
use open_pgpcard_emu.Cardemu.Transmit.{
  encode_uint16, send_try, finish, command_try, send, commit_timeout,
}

module _ {S : Type 0} (host : Host S)
    (dead : (s : S) (bytes : List ℕ) → is_neg (device_send host.device s bytes).0 ≡ true) where
  comm_send-zero : (buff : List ℕ) (len : ℕ) (s : S) → (comm_send host.device buff len s).0 ≡ 0
  unfolding comm_send
  comm_send-zero buff len s = ground (arith, dead s (take len buff))

  resync_round-fails : (s : Session S) → (resync_round host s).0 ≡ err outer
  unfolding resync_round send_message
  resync_round-fails s = rw comm_send-zero

  resync_tries-fails : (n : ℕ) (s : Session S) → (resync_tries host n s).0 ≡ false
  unfolding resync_tries
  resync_tries-fails zero s = refl
  resync_tries-fails (suc n) s =
      ground (arith, resync_round-fails s, resync_tries-fails n (resync_round host s).1)

  pub resync-fails : (port : S) → (resync host port).0 ≡ false
  unfolding resync
  resync-fails port = resync_tries-fails 10 (begin host port)

  -- The first request of a try fails.
  request-fails :
      (mask n : ℕ) (s : Session S) → n ≤ 14 → (request host outer mask n s).0 ≡ err outer
  unfolding request send_message message
  request-fails mask n s short =
      ground (arith, comm_send-zero (message mask (inside 1) n s.buff).1 (n + 1 + 1) s.port)

  -- A try that begins with a failing request ends the loop by `break`.
  retry-breaks :
      {A : Type 0} (n : ℕ) (body : Run (Session S) Failure A) (s : Session S)
      → (body s).0 ≡ err outer
      → (retry host (suc n) body s).0 ≡ broke_outer
  unfolding retry
  retry-breaks n body s e = ground (arith, e, resync-fails (body s).1.port)

  command_try-fails :
      (mask timeout : ℕ) (s : Session S) → (command_try host mask timeout s).0 ≡ err outer
  unfolding command_try
  command_try-fails mask timeout s = ground (arith, request-fails mask 0 s (omega arith))

  finish-claims :
      (mask timeout : ℕ) (value : ℤ) (bytes : List ℕ) (s : Session S)
      → (finish host mask timeout value bytes s).0 ≡ returned value bytes
  unfolding finish
  finish-claims mask timeout value bytes s =
      ground
        (arith, retry-breaks 2 (command_try host mask timeout) s (command_try-fails mask timeout s))

  send_try-fails : (bytes : List ℕ) (s : Session S) → (send_try host bytes s).0 ≡ err outer
  unfolding send_try
  send_try-fails bytes s =
      ground (arith, request-fails 0x40 2 (encode_uint16 host (length bytes) s) (omega arith))

  -- On a line that takes no byte `cardemu_send` reports success for every APDU of at most 65535
  -- bytes: a failed resynchronisation leaves its loops by `break`, and what follows them takes
  -- only `tr == MAX_CMD_TRIES` for a failure.
  pub send-claims_success :
      (bytes : List ℕ) (port : S)
      → length bytes ≤ 0xFFFF
      → (send host bytes port).0 ≡ returned (pos 0) []
  unfolding send
  send-claims_success bytes port fits =
      let out = retry host 3 (send_try host bytes) (begin host port) in
      ground (
        arith,
        retry-breaks 2 (send_try host bytes) (begin host port)
            (send_try-fails bytes (begin host port)),
        finish-claims req_card_commit commit_timeout (pos 0) [] out.1,
      )

  status_try-fails : (s : Session S) → (status_try host s).0 ≡ err outer
  unfolding status_try
  status_try-fails s = ground (arith, request-fails 0x20 0 s (omega arith))

  reset_try-fails : (fuel : ℕ) (s : Session S) → (reset_try host fuel s).0 ≡ err outer
  unfolding reset_try
  reset_try-fails fuel s = ground (arith, request-fails 0x20 1 (poke host 1 1 s) (omega arith))

  -- On the same line `cardemu_card_status` and `cardemu_card_reset` report the error, whatever
  -- the fuel.
  pub status-reset-fail :
      (fuel size : ℕ) (port : S)
      → ((card_status host 0 port).0 ≡ record { code = negsuc 0; status = none })
        × ((card_reset host fuel 0 size port).0 ≡ returned (negsuc 0) [])
  unfolding card_status card_reset
  status-reset-fail fuel size port = (
    ground (
      arith,
      retry-breaks 2 (status_try host) (begin host port) (status_try-fails (begin host port)),
    ),
    ground (
      arith,
      retry-breaks 2 (reset_try host fuel) (begin host port)
          (reset_try-fails fuel (begin host port)),
    ),
  )
