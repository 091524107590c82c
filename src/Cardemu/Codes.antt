-- ===== src/Cardemu/Codes.antt =====
-- What the entry `cardemu_card_status` returns.
use open_pgpcard_emu.Base.{
  ℕ, ◌≡◌, ◌⊎◌, inl, inr, refl, ap, Bool, true, false, ◌||◌, pos, negsuc, ◌==◌, if◌then◌else◌, none,
  some,
}
use open_pgpcard_emu.Base.Run.{require}
use open_pgpcard_emu.Frame.{ans_card_absent, ans_card_present}
use open_pgpcard_emu.Cardemu.Session.{Host, Session, outer, begin}
use open_pgpcard_emu.Cardemu.Resync.{cmd_timeout}
use open_pgpcard_emu.Cardemu.Retry.{
  Outcome, done, broke_outer, broke_inner, exhausted, overran, unfinished, request, receive, answer,
}
use open_pgpcard_emu.Cardemu.Status.{
  ifd_card_present, StatusReply, card_status, status_try, status_reply,
}
use open_pgpcard_emu.Cardemu.Rules.{Holds, Ends, retry-Holds, bind-Ends}

-- The code 0 with a status of 0 or IFD_CARD_PRESENT, or -1 with no status.
abbrev IsStatus : StatusReply → Type 0
IsStatus r =
    ((r.code ≡ pos 0) × ((r.status ≡ some 0) ⊎ (r.status ≡ some ifd_card_present)))
    ⊎ ((r.code ≡ negsuc 0) × (r.status ≡ none))

module _ {S : Type 0} (host : Host S) where
  status_try-Ends : (s : Session S) → Ends (λ st. (st ≡ 0) ⊎ (st ≡ 1)) (status_try host s).0
  unfolding status_try
  status_try-Ends s =
      bind-Ends host Binary (request host outer 0x20 0) _
        (λ _ t.
          bind-Ends host Binary (receive host outer cmd_timeout) _
            (λ _ t'.
              bind-Ends host Binary (answer host) _
                (λ ans t''.
                  bind-Ends host Binary
                    (require (ans == ans_card_absent || ans == ans_card_present) outer) _
                    (λ _ _. one_bit (ans == ans_card_present)) t'')
                t')
            t)
        s
    where
      Binary : ℕ → Type 0
      Binary st = (st ≡ 0) ⊎ (st ≡ 1)

      one_bit : (b : Bool) → Binary (if b then ifd_card_present else 0)
      one_bit true = inr refl
      one_bit false = inl refl

  status_reply-IsStatus :
      (out : Outcome ℕ) → Holds (λ st. (st ≡ 0) ⊎ (st ≡ 1)) out → IsStatus (status_reply host out)
  unfolding status_reply
  status_reply-IsStatus (done st) (inl e) = inl (refl, inl (ap some e))
  status_reply-IsStatus (done st) (inr e) = inl (refl, inr (ap some e))
  status_reply-IsStatus broke_outer h = inr (refl, refl)
  status_reply-IsStatus broke_inner h = inr (refl, refl)
  status_reply-IsStatus exhausted h = inr (refl, refl)
  status_reply-IsStatus overran h = inr (refl, refl)
  status_reply-IsStatus unfinished h = inr (refl, refl)

  -- For the slot 0 `cardemu_card_status` returns 0 with a status of 0 or IFD_CARD_PRESENT, or -1
  -- with no status stored, whatever the device does.
  card_status-codes : (port : S) → IsStatus (card_status host 0 port).0
  unfolding card_status
  card_status-codes port =
      status_reply-IsStatus _
        (retry-Holds host _ (status_try host) status_try-Ends 3 (begin host port))
