-- ===== src/Cardemu/Resync.antt =====
-- `resync`: bring both ends back to the start of a message.
use open_pgpcard_emu.Base.{
  ℕ, zero, suc, ◌+◌, ◌%◌, Bool, true, false, not, List, ◌==◌, set, get_or, ◌&&◌,
}
use open_pgpcard_emu.Base.Run.{ok, err, Run, ◌>>=◌, ◌>>◌, require, lift}
use open_pgpcard_emu.Frame.{
  inside, cmd_hdr_size, cmd_crc_size, cmd_max_plsz, cmd_max_remsz, req_resync, req_resync_complete,
  ans_resync, ans_ok, get_ans_mask,
}
use open_pgpcard_emu.Line.{comm_recv, comm_recv_message}
use open_pgpcard_emu.Cardemu.Session.{
  Host, Session, Failure, outer, begin, send_message, recv_message,
}

abbrev pub cmd_timeout : ℕ
cmd_timeout = 500

abbrev pub max_resync_tries : ℕ
max_resync_tries = 10

abbrev pub max_resync_garbage : ℕ
max_resync_garbage = 4096

module _ {S : Type 0} (host : Host S) where
  -- `!comm_send(…)` continues with the next try.
  unfoldable pub send_or_stop : ℕ → ℕ → Run (Session S) Failure (Unit {0})
  send_or_stop mask pl_len = do
    (msg_len, sent) ← lift (send_message host mask (inside cmd_hdr_size) pl_len)
    require (not (sent == 0)) outer

  -- Read until a timeout: false if `n` bytes came and there was none.
  unfoldable pub drain : ℕ → Session S → Bool × Session S
  drain zero s = (false, s)
  drain (suc n) s =
      let ((dr, buff'), port') = comm_recv host.device 0 1 cmd_timeout s.buff s.port in
      elim (dr == 0) [
        | true ↦ (true, record s { port = port'; buff = buff' })
        | false ↦ drain n (record s { port = port'; buff = buff' })
      ]

  -- The message must have this length and kind.
  unfoldable pub expect : ℕ → ℕ → Run (Session S) Failure (Unit {0})
  expect len mask = do
    n ← lift (recv_message host cmd_timeout)
    require (n == len) outer
    λ s. require (get_ans_mask s.buff == mask) outer s

  -- `*(resyncBuff + CMD_HDR_SIZE + h) = rand() % 256` for the `n` bytes from `h` on
  unfoldable pub fill_random : ℕ → ℕ → Session S → Session S
  fill_random zero h s = s
  fill_random (suc n) h s =
      let (r, port') = host.rand s.port in
      fill_random n (suc h)
        (record s { port = port'; buff = set s.buff (cmd_hdr_size + h) (r % 256) })

  unfoldable pub same_payload : ℕ → ℕ → List ℕ → List ℕ → Bool
  same_payload zero g a b = true
  same_payload (suc n) g a b =
      get_or a (cmd_hdr_size + g) 0 == get_or b (cmd_hdr_size + g) 0 && same_payload n (suc g) a b

  -- The answer to the control sequence, in a buffer of its own.
  unfoldable pub expect_echo : Run (Session S) Failure (Unit {0})
  unfolding same_payload
  expect_echo s =
      let ((n, ans), port') = comm_recv_message host.device cmd_timeout host.stack s.port in
      (do
        require (n == cmd_max_remsz + cmd_hdr_size) outer
        require (get_ans_mask ans == ans_resync) outer
        require (same_payload cmd_max_plsz 0 ans s.buff) outer)
        (record s { port = port' })

  -- One round of the loop; an error is a `continue`.
  unfoldable pub resync_round : Run (Session S) Failure (Unit {0})
  unfolding send_or_stop expect expect_echo
  resync_round = do
    send_or_stop req_resync 0
    drained ← lift (drain max_resync_garbage)
    require drained outer
    send_or_stop req_resync 0
    expect (cmd_crc_size + cmd_hdr_size) ans_resync
    lift (λ s. (tt, fill_random cmd_max_plsz 0 s))
    send_or_stop req_resync cmd_max_plsz
    expect_echo
    send_or_stop req_resync_complete 0
    expect (cmd_hdr_size + cmd_crc_size) ans_ok

  unfoldable pub resync_tries : ℕ → Session S → Bool × Session S
  unfolding resync_round
  resync_tries zero s = (false, s)
  resync_tries (suc n) s =
      let (r, s') = resync_round s in elim r [ ok _ ↦ (true, s') | err _ ↦ resync_tries n s' ]

  unfoldable pub resync : S → Bool × S
  unfolding resync_tries
  resync port =
      let (synced, s) = resync_tries max_resync_tries (begin host port) in (synced, s.port)
