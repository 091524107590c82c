-- ===== src/Cardemu/Status.antt =====
-- `cardemu_card_status` and `cardemu_deactivate`.
use open_pgpcard_emu.Base.{ℕ, Option, none, some, ◌||◌, ◌==◌, ◌!=◌, if◌then◌else◌, ℤ, pos}
use open_pgpcard_emu.Base.Run.{Run, ◌>>=◌, ◌>>◌, pure, require, lift}
use open_pgpcard_emu.Device.{error_generic, error_invalid_slot}
use open_pgpcard_emu.Frame.{cmd_hdr_size, req_card_status, ans_card_absent, ans_card_present}
use open_pgpcard_emu.Cardemu.Session.{Host, Session, Failure, outer, begin, poke}
use open_pgpcard_emu.Cardemu.Resync.{cmd_timeout}
use open_pgpcard_emu.Cardemu.Retry.{Outcome, done, retry, request, receive, answer, max_cmd_tries}

abbrev pub ifd_card_present : ℕ
ifd_card_present = 1

-- The return code, and what was written to `*status`, if anything was.
pub record StatusReply : Type 0 where
  pub code : ℤ
  pub status : Option ℕ

module _ {S : Type 0} (host : Host S) where
  unfoldable pub status_try : Run (Session S) Failure ℕ
  status_try = do
    request host outer req_card_status 0
    receive host outer cmd_timeout
    ans ← answer host
    require (ans == ans_card_absent || ans == ans_card_present) outer
    pure (if ans == ans_card_present then ifd_card_present else 0)

  unfoldable pub status_reply : Outcome ℕ → StatusReply
  status_reply (done st) = record { code = pos 0; status = some st }
  status_reply _ = record { code = error_generic; status = none }

  unfoldable pub card_status : ℕ → S → StatusReply × S
  unfolding status_reply
  card_status slot port =
      if slot != 0
      then (record { code = error_invalid_slot; status = none }, port)
      else let (out, s) = retry host max_cmd_tries status_try (begin host port) in
        (status_reply out, s.port)

  unfoldable pub deactivate_try : Run (Session S) Failure (Unit {0})
  deactivate_try = do
    lift (λ s. (tt, poke host cmd_hdr_size 0 s))
    request host outer req_card_status 1
    receive host outer cmd_timeout
    ans ← answer host
    require (ans == ans_card_absent) outer

  unfoldable pub deactivate_code : Outcome (Unit {0}) → ℤ
  deactivate_code (done _) = pos 0
  deactivate_code _ = error_generic

  unfoldable pub deactivate : S → ℤ × S
  unfolding deactivate_code
  deactivate port =
      let (out, s) = retry host max_cmd_tries deactivate_try (begin host port) in
      (deactivate_code out, s.port)
