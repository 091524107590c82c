-- ===== src/Together/Echo.antt =====
-- The control sequence of `resync` in OpenCTDriver/src/ifd/ifd-cardemu.c, answered by the
-- firmware at the other end.
use open_pgpcard_emu.Base.{
  ℕ, zero, suc, ◌+◌, ◌≤◌, ◌≡◌, refl, ◌∙◌, sym, ap, ap₂, subst, Bool, true, ◌&&◌, List, [], ◌∷◌,
  ◌++◌, arith, ◌==◌, ==_refl, get_or, take, drop, length, length-append, take-append,
}
use open_pgpcard_emu.Base.Run.{Run, Result, ok, ◌>>◌, require}
use open_pgpcard_emu.Base.Slice.{slice, length-slice}
use open_pgpcard_emu.Crc8.{crc8}
use open_pgpcard_emu.Frame.{get_ans_mask, answer_fits}
use open_pgpcard_emu.Frame.Build.{header_of}
use open_pgpcard_emu.Line.{comm_recv_message}
use open_pgpcard_emu.Cardemu.Session.{Host, Session, Failure, outer}
use open_pgpcard_emu.Cardemu.Resync.{same_payload, expect_echo, cmd_timeout}
use open_pgpcard_emu.Firmware.Answer.{answer_frame}
use open_pgpcard_emu.Firmware.Comm.{resync, req_code, resync_answer, ans_code, request_fits}
use open_pgpcard_emu.Firmware.React.{Node}
use open_pgpcard_emu.Firmware.Receive.{IsRequest}
use open_pgpcard_emu.Together.Link.{IsLinked}
use open_pgpcard_emu.Together.Exchange.{Meets, IsAnswer, payload-kept, comm_recv_message-linked}
use open_pgpcard_emu.Together.Steps.{Yields, require-Yields, get_ans_mask-answer}

same_payload-slice :
    {S : Type 0} (host : Host S) (n g : ℕ) (a b : List ℕ)
    → slice (1 + g) n a ≡ slice (1 + g) n b
    → same_payload host n g a b ≡ true
unfolding same_payload slice
same_payload-slice host zero g a b e = refl
same_payload-slice host (suc n) g a b e =
    ap₂ ◌&&◌
      (ap (λ (xs : List ℕ). get_or xs 0 0 == get_or b (1 + g) 0) e ∙ ==_refl (get_or b (1 + g) 0))
      (same_payload-slice host n (suc g) a b (
        ap (λ (k : ℕ). slice k n a) {x = 1 + suc g} {y = suc (1 + g)} (omega arith)
        ∙ ap (drop 1) e
        ∙ ap (λ (k : ℕ). slice k n b) {x = suc (1 + g)} {y = 1 + suc g} (omega arith)))

pub require_then :
    {S A : Type 0} (test : Bool) (e : Failure) (k : Run S Failure A) (s : S) (a : A)
    (P : S → Type 0)
    → test ≡ true
    → Yields k s a P
    → Yields (require test e >> k) s a P
require_then test e k s a P holds next = rw holds next

module _ {S : Type 0} (host : Host S) (node : S → Node) (line : S → List ℕ) (IsIdle : S → Type 0)
    (linked : IsLinked host node line IsIdle) (room : length host.stack ≡ 16) where
  abbrev pub At : Node → List ℕ → Session S → Type 0
  At n bytes t = Meets host node line IsIdle linked t n bytes

  pub resync-IsRequest : (p : List ℕ) → length p ≤ 14 → IsRequest resync p
  unfolding request_fits req_code
  resync-IsRequest p short = (short, refl)

  pub resync-IsAnswer :
      (p : List ℕ) → length p ≤ 14 → IsAnswer host node line IsIdle linked resync_answer p
  unfolding answer_fits ans_code
  resync-IsAnswer p short = (short, refl)

  abbrev Echoed : Node → Result Failure (Unit {0}) × Session S → Type 0
  Echoed n out = (out.0 ≡ ok tt) × At n [] out.1

  pub echo-Yields :
      (n : Node) (s : Session S)
      → At n (answer_frame resync_answer (slice 1 14 s.buff) ++ []) s
      → Yields (expect_echo host) s tt (At n [])
  unfolding expect_echo ans_code
  echo-Yields n s (here, size) =
      let (e, there) =
        comm_recv_message-linked host node line IsIdle linked cmd_timeout resync_answer p [] n
          host.stack s.port here (resync-IsAnswer p short) room in
      let port' = (comm_recv_message host.device cmd_timeout host.stack s.port).1 in
      subst (λ (got : ℕ × List ℕ). Echoed n (after got port')) (sym e)
        (require_then (length p + 2 == 16) outer kind_and_bytes (record s { port = port' }) tt
          (At n []) (ground (arith, len))
          (require_then (get_ans_mask whole == 0xE0) outer same_bytes (record s { port = port' }) tt
            (At n [])
            (ap (λ (k : ℕ). k == 0xE0)
              (get_ans_mask-answer resync_answer p (drop (length p + 2) host.stack) short))
            (require-Yields (same_payload host 14 0 whole s.buff) outer (record s { port = port' })
              (At n []) (same_payload-slice host 14 0 whole s.buff same) (there, size))))
    where
      p : List ℕ
      p = slice 1 14 s.buff

      len : length p ≡ 14
      len = length-slice 1 14 s.buff

      short : length p ≤ 14
      short = omega (arith, len)

      whole : List ℕ
      whole = answer_frame resync_answer p ++ drop (length p + 2) host.stack

      after : ℕ × List ℕ → S → Result Failure (Unit {0}) × Session S
      after got port' =
          (require (got.0 == 16) outer
              >> (require (get_ans_mask got.1 == 0xE0) outer
                  >> require (same_payload host 14 0 got.1 s.buff) outer))
            (record s { port = port' })

      same_bytes : Run (Session S) Failure (Unit {0})
      same_bytes = require (same_payload host 14 0 whole s.buff) outer

      kind_and_bytes : Run (Session S) Failure (Unit {0})
      kind_and_bytes = require (get_ans_mask whole == 0xE0) outer >> same_bytes

      header : ℕ
      header = header_of 0xE0 (length p)

      c : ℕ
      c = crc8 (header ∷ p)

      len-frame : length (header ∷ p ++ c ∷ []) ≡ 16
      len-frame = omega (arith, length-append p (c ∷ []), len)

      same : slice 1 14 whole ≡ slice 1 14 s.buff
      same =
          payload-kept 14 header c p whole
            (omega (
              arith,
              length-append (header ∷ p ++ c ∷ []) (drop (length p + 2) host.stack),
              len-frame,
            ))
            len
            (ap (λ k. take k whole) (sym len-frame)
              ∙ take-append (header ∷ p ++ c ∷ []) (drop (length p + 2) host.stack))
