-- ===== src/Cardemu/Session.antt =====
-- What the entries share: a message buffer on the stack, and the macros RUN_RESYNC_AND_RETRY.
use open_pgpcard_emu.Base.{ℕ, List, [], set}
use open_pgpcard_emu.Device.{DeviceOps}
use open_pgpcard_emu.Frame.{Payload, message}
use open_pgpcard_emu.Line.{comm_send, comm_recv_message}

-- The outside of the driver: the device, `rand()`, and the bytes that a stack buffer holds before
-- it is written.
pub record Host (S : Type 0) : Type 0 where
  pub device : DeviceOps S
  pub rand : S → ℕ × S
  pub stack : List ℕ

-- The state of the outside, the message buffer `buff`, `sendBuffer` or `resyncBuff`, and the
-- bytes that `cardemu_recv` has stored so far, `dr` of them.
pub record Session (S : Type 0) : Type 0 where
  pub port : S
  pub buff : List ℕ
  pub got : List ℕ

-- What ends one try of an entry: an error for RUN_RESYNC_AND_RETRY, one for
-- RUN_RESYNC_AND_RETRY_2, a write behind the end of an array, or the end of the fuel.
pub data Failure : Type 0 where
  outer inner overrun no_fuel : Failure

module _ {S : Type 0} (host : Host S) where
  -- An entry begins.
  abbrev pub begin : S → Session S
  begin port = record { port = port; buff = host.stack; got = [] }

  -- `comm_message` into the buffer, and `comm_send`: the length of the message and what
  -- `comm_send` returned.
  unfoldable pub send_message : ℕ → Payload → ℕ → Session S → (ℕ × ℕ) × Session S
  send_message mask payload pl_len s =
      let (msg_len, buff') = message mask payload pl_len s.buff in
      let (sent, port') = comm_send host.device buff' msg_len s.port in
      ((msg_len, sent), record s { port = port'; buff = buff' })

  -- `comm_recv_message` into the buffer.
  unfoldable pub recv_message : ℕ → Session S → ℕ × Session S
  recv_message timeout s =
      let ((n, buff'), port') = comm_recv_message host.device timeout s.buff s.port in
      (n, record s { port = port'; buff = buff' })

  -- `*(buff + i) = byte`
  unfoldable pub poke : ℕ → ℕ → Session S → Session S
  poke i byte s = record s { buff = set s.buff i byte }
