-- ===== src/Cardemu/SendTotal.antt =====
-- The end of `cardemu_send` in OpenCTDriver/src/ifd/ifd-cardemu.c, whatever the device does.
use open_pgpcard_emu.Base.{
  ℕ, zero, suc, ◌≤◌, ◌≡◌, ◌⊎◌, inl, inr, refl, true, false, List, [], arith, pos, negsuc, ◌==◌,
  length, drop, length-drop, Bool-cases,
}
use open_pgpcard_emu.Base.Run.{Result, ok, err, require}
use open_pgpcard_emu.Frame.{req_card_send, req_card_commit, ans_ok}
use open_pgpcard_emu.Cardemu.Session.{Host, Session, Failure, outer, inner, begin}
use open_pgpcard_emu.Cardemu.Resync.{cmd_timeout}
use open_pgpcard_emu.Cardemu.Retry.{
  Outcome, done, broke_outer, broke_inner, exhausted, overran, unfinished, retry, request, receive,
  answer, is_fatal,
}
use open_pgpcard_emu.Cardemu.Reset.{returned}
use open_pgpcard_emu.Cardemu.Transmit.{
  send_package, package_len, send_packages, send_try, after_data, finish, send, commit_timeout,
  encode_uint16,
}
use open_pgpcard_emu.Cardemu.Rules.{
  IsSound, IsFollowed, retry-IsFollowed, bind-IsSound, require-IsSound,
}

module _ {S : Type 0} (host : Host S) where
  request-IsSound : (mask n : ℕ) (s : Session S) → IsSound (request host outer mask n s).0
  unfolding request
  request-IsSound mask n s = require-IsSound host _ outer _ refl

  receive-IsSound :
      (e : Failure) (timeout : ℕ)
      → is_fatal e ≡ false
      → (s : Session S) → IsSound (receive host e timeout s).0
  unfolding receive
  receive-IsSound e timeout h s = require-IsSound host _ e _ h

  answer-IsSound : (s : Session S) → IsSound (answer host s).0
  unfolding answer
  answer-IsSound s = tt

  send_package-cases :
      (target : List ℕ) (n : ℕ) (s : Session S)
      → ((send_package host target n s).0 ≡ ok tt) ⊎ ((send_package host target n s).0 ≡ err inner)
  unfolding send_package receive answer
  send_package-cases target n s = ground arith

  IsSound-of_cases : (r : Result Failure (Unit {0})) → (r ≡ ok tt) ⊎ (r ≡ err inner) → IsSound r
  IsSound-of_cases r (inl e) = rw e tt
  IsSound-of_cases r (inr e) = rw e refl

  send_package-IsSound :
      (target : List ℕ) (n : ℕ) (s : Session S) → IsSound (send_package host target n s).0
  send_package-IsSound target n s = IsSound-of_cases _ (send_package-cases target n s)

  -- As many rounds as bytes are enough for the packages.
  send_packages-IsSound :
      (fuel : ℕ) (target : List ℕ)
      → length target ≤ fuel
      → (s : Session S) → IsSound (send_packages host fuel target s).0
  unfolding send_packages
  send_packages-IsSound zero target short s =
      let e : (length target == 0) ≡ true = ground arith in rw (e, IsSound) tt
  send_packages-IsSound (suc fuel) target short s = elim (Bool-cases (length target == 0)) [
    | inl finished ↦ rw (finished, IsSound) tt
    | inr more ↦
        rw (more, IsSound)
          (bind-IsSound host (send_package host target (package_len host target))
            (λ _. send_packages host fuel (drop (package_len host target) target))
            (send_package-IsSound target (package_len host target))
            (λ _ t.
              send_packages-IsSound fuel (drop (package_len host target) target)
                (ground (arith, length-drop (package_len host target) target)) t)
            s)
  ]

  send_try-IsSound : (bytes : List ℕ) (s : Session S) → IsSound (send_try host bytes s).0
  unfolding send_try
  send_try-IsSound bytes s =
      bind-IsSound host (request host outer req_card_send 2) _ (request-IsSound req_card_send 2)
        (λ _ t.
          bind-IsSound host (receive host outer cmd_timeout) _
            (receive-IsSound outer cmd_timeout refl)
            (λ _ t'.
              bind-IsSound host (answer host) _ answer-IsSound
                (λ ans u.
                  bind-IsSound host (require (ans == ans_ok) outer) _
                    (λ v. require-IsSound host (ans == ans_ok) outer v refl)
                    (λ _ v. send_packages-IsSound (length bytes) bytes (omega arith) v) u)
                t')
            t)
        (encode_uint16 host (length bytes) s)

  finish-codes :
      (mask timeout : ℕ) (s : Session S)
      → ((finish host mask timeout (pos 0) [] s).0 ≡ returned (pos 0) [])
        ⊎ ((finish host mask timeout (pos 0) [] s).0 ≡ returned (negsuc 0) [])
  unfolding finish
  finish-codes mask timeout s = ground arith

  after_data-codes :
      (out : Outcome (Unit {0})) (s : Session S)
      → IsFollowed out
      → let r = after_data host out (finish host req_card_commit commit_timeout (pos 0) []) s in
        (r.0 ≡ returned (pos 0) []) ⊎ (r.0 ≡ returned (negsuc 0) [])
  unfolding after_data
  after_data-codes (done u) s h = finish-codes req_card_commit commit_timeout s
  after_data-codes broke_outer s h = finish-codes req_card_commit commit_timeout s
  after_data-codes broke_inner s h = inr refl
  after_data-codes exhausted s h = inr refl
  after_data-codes overran s h = elim h [ ]
  after_data-codes unfinished s h = elim h [ ]

  -- `cardemu_send` ends for every APDU, whatever the device does, and returns 0 or -1.
  pub send_total :
      (bytes : List ℕ) (port : S)
      → ((send host bytes port).0 ≡ returned (pos 0) [])
        ⊎ ((send host bytes port).0 ≡ returned (negsuc 0) [])
  unfolding send
  send_total bytes port =
      let out = retry host 3 (send_try host bytes) (begin host port) in
      ground (
        arith,
        after_data-codes out.0 out.1 (
            retry-IsFollowed host (send_try host bytes) (send_try-IsSound bytes) 3
              (begin host port)),
      )
