-- ===== src/Cardemu/Retry.antt =====
-- The loop `for (tr = 0; tr < MAX_CMD_TRIES; ++tr)` of the entries, with the macros
-- RUN_RESYNC_AND_RETRY and RUN_RESYNC_AND_RETRY_2 for a try that stops.
use open_pgpcard_emu.Base.{ℕ, zero, suc, Bool, true, false, ◌==◌}
use open_pgpcard_emu.Base.Run.{Result, ok, err, Run, ◌>>=◌, require, lift}
use open_pgpcard_emu.Frame.{inside, cmd_hdr_size, get_ans_mask}
use open_pgpcard_emu.Cardemu.Session.{
  Host, Session, Failure, outer, inner, overrun, no_fuel, send_message, recv_message,
}
use open_pgpcard_emu.Cardemu.Resync.{resync}

abbrev pub max_cmd_tries : ℕ
max_cmd_tries = 3

-- How the loop was left: by the end of a try, by `break` since the resynchronisation after an
-- error failed, with all tries used up, or in a state that the model does not follow further.
pub data Outcome (A : Type 0) : Type 0 where
  done : A → Outcome A
  broke_outer broke_inner exhausted overran unfinished : Outcome A

abbrev pub broke : {A : Type 0} → Failure → Outcome A
broke outer = broke_outer
broke inner = broke_inner
broke overrun = overran
broke no_fuel = unfinished

abbrev pub is_fatal : Failure → Bool
is_fatal outer = false
is_fatal inner = false
is_fatal overrun = true
is_fatal no_fuel = true

module _ {S : Type 0} (host : Host S) where
  -- `if (resync(dev)) continue; else break;`, with what `resync` returned.
  unfoldable pub after_resync :
      {A : Type 0}
      → Bool
      → Failure
      → Session S
      → (Session S → Outcome A × Session S)
      → Outcome A × Session S
  after_resync true e s next = next s
  after_resync false e s next = (broke e, s)

  -- After a try: the end, or `resync` and `continue` with the tries left, or `break`.
  unfoldable pub after_try :
      {A : Type 0}
      → Result Failure A
      → Session S
      → (Session S → Outcome A × Session S)
      → Outcome A × Session S
  unfolding after_resync
  after_try (ok a) s next = (done a, s)
  after_try (err e) s next = elim (is_fatal e) [
    | true ↦ (broke e, s)
    | false ↦
        let (synced, port') = resync host s.port in
        after_resync synced e (record s { port = port' }) next
  ]

  unfoldable pub retry :
      {A : Type 0} → ℕ → Run (Session S) Failure A → Session S → Outcome A × Session S
  unfolding after_try
  retry zero body s = (exhausted, s)
  retry (suc n) body s = let (r, s') = body s in after_try r s' (λ t. retry n body t)

  -- `comm_message`, and `comm_send(…) != msgLen` as an error.
  unfoldable pub request : Failure → ℕ → ℕ → Run (Session S) Failure (Unit {0})
  request e mask pl_len = do
    (msg_len, sent) ← lift (send_message host mask (inside cmd_hdr_size) pl_len)
    require (sent == msg_len) e

  -- `!comm_recv_message(…)` as an error.
  unfoldable pub receive : Failure → ℕ → Run (Session S) Failure (Unit {0})
  receive e timeout = do
    n ← lift (recv_message host timeout)
    require (elim (n == 0) [ true ↦ false | false ↦ true ]) e

  -- The kind of the message in the buffer.
  unfoldable pub answer : Run (Session S) Failure ℕ
  answer s = (ok (get_ans_mask s.buff), s)
