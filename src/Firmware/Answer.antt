-- ===== src/Firmware/Answer.antt =====
-- What `SendAnswer` of ArduinoCardEmu/comm_helper.cpp puts on the line.
use open_pgpcard_emu.Base.{
  ℕ, zero, suc, ◌+◌, ◌≤◌, ◌≡◌, refl, ◌∙◌, ap, ap₂, subst, append-nil, true, false, List, [], arith,
  ltb, set, get_or, take, length,
}
use open_pgpcard_emu.Base.Run.{◌>>◌, pure}
use open_pgpcard_emu.Base.Write.{slice-whole}
use open_pgpcard_emu.Frame.{outside, copy_from, place_payload, message}
use open_pgpcard_emu.Frame.Build.{frame, header_of, message-frame}
use open_pgpcard_emu.Firmware.Crc8.{crc8-crc8}
use open_pgpcard_emu.Firmware.Board.{Board}
use open_pgpcard_emu.Firmware.Comm.{
  AnsType, ans_code, place, answer_message, send_answer, write_bytes,
}
use open_pgpcard_emu.Firmware.Wire.{IsWired, Does, pure-Does, bind-Does, write_bytes-Does}

-- A message of an answer.
abbrev pub answer_frame : AnsType → List ℕ → List ℕ
answer_frame ans payload = frame (header_of (ans_code ans) (length payload)) payload

module _ {S : Type 0} (board : Board S) where
  place-copy_from :
      (n i : ℕ) (payload buff : List ℕ) → place board n i payload buff ≡ copy_from n i payload buff
  unfolding place copy_from
  place-copy_from zero i payload buff = refl
  place-copy_from (suc n) i payload buff =
      place-copy_from n (suc i) payload (set buff (1 + i) (get_or payload i 0))

  -- `SendAnswer` makes the same message of an answer as `comm_message` does of a request.
  answer_message-message :
      (ans : AnsType) (payload : List ℕ) (n : ℕ)
      → n ≤ 14
      → answer_message board ans payload n
        ≡ take (n + 2) (message (ans_code ans) (outside payload) n board.stack).1
  unfolding answer_message message place_payload
  answer_message-message ans payload n h = rw (place-copy_from n 0 payload board.stack) (
      rw fits_test (
        ap₂ (λ (k : ℕ) (c : ℕ). take k (set headed (n + 1) c)) (omega arith)
          (crc8-crc8 (take (n + 1) headed))))
    where
      fits_test : ltb 14 n ≡ false
      fits_test = ground arith

      headed : List ℕ
      headed = set (copy_from n 0 payload board.stack) 0 (header_of (ans_code ans) n)

  pub answer_message-frame :
      (ans : AnsType) (payload : List ℕ)
      → length payload ≤ 14
      → length board.stack ≡ 16
      → answer_message board ans payload (length payload) ≡ answer_frame ans payload
  answer_message-frame ans payload short room =
      answer_message-message ans payload (length payload) short
      ∙ (message-frame (ans_code ans) (outside payload) (length payload) board.stack short
          (omega arith)).1
      ∙ ap (λ bytes. frame (header_of (ans_code ans) (length payload)) bytes) (slice-whole payload)

  module _ (inbox outbox : S → List ℕ) (wired : IsWired board inbox outbox) where
    pub send_answer-Does :
        (patience : ℕ) (ans : AnsType) (payload : List ℕ) (s : S) (rest : List ℕ)
        → length payload ≤ 14
        → length board.stack ≡ 16
        → inbox s ≡ rest
        → Does inbox outbox
            (send_answer board (suc patience) ans payload (length payload))
            s
            true
            rest
            (answer_frame ans payload)
    unfolding send_answer
    send_answer-Does patience ans payload s rest short room same =
        let bytes = answer_message board ans payload (length payload) in
        let fits_test : ltb 14 (length payload) ≡ false = ground arith in
        rw (fits_test, send_answer)
          (subst
            (Does inbox outbox (write_bytes board (suc patience) bytes >> pure true) s true rest)
            (append-nil bytes ∙ answer_message-frame ans payload short room)
            (bind-Does inbox outbox (write_bytes board (suc patience) bytes) (λ _. pure true) s tt
              true rest rest bytes []
              (write_bytes-Does inbox outbox board wired patience bytes s rest same)
              (λ t. pure-Does inbox outbox true t rest)))
