-- ===== src/Together/Reset.antt =====
-- `cardemu_card_reset` of OpenCTDriver/src/ifd/ifd-cardemu.c with the firmware at the other end.
use open_pgpcard_emu.Base.{
  ℕ, suc, ◌+◌, ◌-◌, ◌≤◌, ◌≡◌, refl, ◌∙◌, sym, ap, ap₂, subst, true, false, List, [], ◌∷◌, ◌++◌,
  arith, ltb, leb, ◌==◌, if◌then◌else◌, pos, take, drop, length, length-set, get_or, min,
  get_or-set_self, take-append, append_assoc, ne→==_false,
}
use open_pgpcard_emu.Base.Run.{Result, Run, ok, err, ◌>>=◌, ◌>>◌, require}
use open_pgpcard_emu.Base.Slice.{slice}
use open_pgpcard_emu.Crc8.{crc8}
use open_pgpcard_emu.Frame.{
  ans_card_present, answer_fits, get_remsize, get_payload, calc_payload_size,
}
use open_pgpcard_emu.Frame.Build.{header_of}
use open_pgpcard_emu.Cardemu.Session.{Host, Session, Failure, outer, inner, overrun, begin, poke}
use open_pgpcard_emu.Cardemu.Resync.{cmd_timeout}
use open_pgpcard_emu.Cardemu.Retry.{Outcome, request, receive, answer}
use open_pgpcard_emu.Cardemu.Reset.{returned, read_atr, reset_try, reset_reply, card_reset}
use open_pgpcard_emu.Firmware.Answer.{answer_frame}
use open_pgpcard_emu.Firmware.Codes.{ans-fields}
use open_pgpcard_emu.Firmware.Comm as Firmware
use open_pgpcard_emu.Firmware.Comm.{req_code, ans_code, request_fits}
use open_pgpcard_emu.Firmware.Loop.{Globals, set_card_status, atr}
use open_pgpcard_emu.Firmware.React.{in_loop, Node, atr_answers, react, frames}
use open_pgpcard_emu.Together.Link.{IsLinked, Stands}
use open_pgpcard_emu.Together.Exchange.{Meets, IsAnswer}
use open_pgpcard_emu.Together.Steps.{Yields, bind-Yields}
use open_pgpcard_emu.Together.Commands.{request-Yields, receive-Yields, answer-Yields, retry-done}

-- The fields of a message in the buffer.
part_len-answer :
    (ans : Firmware.AnsType) (p rest : List ℕ)
    → length p ≤ 14
    → calc_payload_size (get_remsize (answer_frame ans p ++ rest)) ≡ length p
unfolding calc_payload_size get_remsize
part_len-answer ans p rest short =
    ap (λ (k : ℕ). if ltb 0 k then k - 1 else k) (ans-fields ans (length p) short).0 ∙ ground arith

payload-answer :
    (ans : Firmware.AnsType) (p rest : List ℕ)
    → take (length p) (get_payload (answer_frame ans p ++ rest)) ≡ p
unfolding get_payload
payload-answer ans p rest =
    ap (take (length p)) (append_assoc p (crc8 (header_of (ans_code ans) (length p) ∷ p) ∷ []) rest)
    ∙ take-append p _

module _ {S : Type 0} (host : Host S) (node : S → Node) (line : S → List ℕ) (IsIdle : S → Type 0)
    (linked : IsLinked host node line IsIdle) (room : length host.stack ≡ 16) where
  present-IsAnswer :
      (p : List ℕ) → length p ≤ 14 → IsAnswer host node line IsIdle linked Firmware.card_present p
  unfolding answer_fits ans_code
  present-IsAnswer p short = (short, refl)

  -- One part of the ATR.
  read_part :
      (fuel rem : ℕ) (got p rest result : List ℕ) (n : Node) (s : Session S)
      (P : Session S → Type 0)
      → Meets host node line IsIdle linked s n (answer_frame Firmware.card_present p ++ rest)
      → length p ≤ 14
      → length p ≤ rem
      → 1 ≤ rem
      → ((t : Session S)
          → Meets host node line IsIdle linked t n rest
          → Yields (read_atr host fuel (rem - length p) (got ++ p)) t result P)
      → Yields (read_atr host (suc fuel) rem got) s result P
  unfolding read_atr ans_code
  read_part fuel rem got p rest result n s P here short fits more next =
      rw (ne→==_false rem 0 (λ none. omega arith), read_atr)
        (bind-Yields (receive host inner cmd_timeout) (λ _. answer host >>= part) s tt result
          (λ u. Meets host node line IsIdle linked u n rest × (u.buff ≡ whole)) P
          (receive-Yields host node line IsIdle linked inner cmd_timeout Firmware.card_present p
            rest n s here (present-IsAnswer p short))
          (λ u (there, e).
            bind-Yields (answer host) part u 0x40 result
              (λ v. Meets host node line IsIdle linked v n rest × (v.buff ≡ whole)) P
              (answer-Yields host node line IsIdle linked Firmware.card_present p
                (drop (length p + 2) s.buff) u
                (λ v. Meets host node line IsIdle linked v n rest × (v.buff ≡ whole)) short e
                (there, e))
              (λ v (here', e').
                subst (λ (out : Result Failure (List ℕ) × Session S). (out.0 ≡ ok result) × P out.1)
                  (sym (
                    ap₂ (λ (k : ℕ) (b : List ℕ). stored k b v)
                      (ap (λ b. calc_payload_size (get_remsize b)) e' ∙ size)
                      (ap (λ b. take (calc_payload_size (get_remsize b)) (get_payload b)) e'
                        ∙ ap (λ k. take k (get_payload whole)) size
                        ∙ payload-answer Firmware.card_present p (drop (length p + 2) s.buff))))
                  (rw enough (next v here')))))
    where
      whole : List ℕ
      whole = answer_frame Firmware.card_present p ++ drop (length p + 2) s.buff

      size : calc_payload_size (get_remsize whole) ≡ length p
      size = part_len-answer Firmware.card_present p (drop (length p + 2) s.buff) short

      enough : leb (length p) rem ≡ true
      enough = ground arith

      stored : ℕ → List ℕ → Session S → Result Failure (List ℕ) × Session S
      stored part_len bytes v = elim (leb part_len rem) [
        | false ↦ (err overrun, v)
        | true ↦ read_atr host fuel (rem - part_len) (got ++ bytes) v
      ]

      part : ℕ → Run (Session S) Failure (List ℕ)
      part ans = require (ans == ans_card_present) inner >> (λ v.
          stored (calc_payload_size (get_remsize v.buff))
            (take (calc_payload_size (get_remsize v.buff)) (get_payload v.buff)) v)

  abbrev reset_node : Globals → Node
  reset_node g = record { mode = in_loop; globals = set_card_status true g }

  -- The two parts of the ATR.
  read_atr-Yields :
      (fuel : ℕ) (g : Globals) (s : Session S)
      → Meets host node line IsIdle linked s (reset_node g) (
          answer_frame Firmware.card_present (take 14 atr)
          ++ (answer_frame Firmware.card_present (drop 14 atr) ++ []))
      → Yields
          (read_atr host (suc (suc (suc fuel))) 21 [])
          s
          atr
          (λ t. Meets host node line IsIdle linked t (reset_node g) [])
  unfolding read_atr
  read_atr-Yields fuel g s here =
      read_part (suc (suc fuel)) 21 [] (take 14 atr)
        (answer_frame Firmware.card_present (drop 14 atr) ++ []) atr (reset_node g) s
        (λ t. Meets host node line IsIdle linked t (reset_node g) []) here (omega arith)
        (omega arith) (omega arith)
        (λ t there.
          read_part (suc fuel) 7 (take 14 atr) (drop 14 atr) [] atr (reset_node g) t
            (λ u. Meets host node line IsIdle linked u (reset_node g) []) there (omega arith)
            (omega arith) (omega arith) (λ u end. (refl, end)))

  reset_try-Yields :
      (fuel : ℕ) (g : Globals) (s : Session S)
      → Meets host node line IsIdle linked s (record { mode = in_loop; globals = g }) []
      → Yields
          (reset_try host (suc (suc (suc fuel))))
          s
          atr
          (λ t. Meets host node line IsIdle linked t (reset_node g) [])
  unfolding reset_try poke req_code ans_code slice request_fits react
  reset_try-Yields fuel g s (here, size) =
      bind-Yields (request host outer 0x20 1)
        (λ _. receive host outer cmd_timeout >> (answer host >>= collect)) (poke host 1 1 s) tt atr
        (λ t. Meets host node line IsIdle linked t (reset_node g) (frames atr_answers)) Done
        (request-Yields host node line IsIdle linked outer Firmware.card_status 1 (1 ∷ [])
          (record { mode = in_loop; globals = g }) (reset_node g) atr_answers [] (poke host 1 1 s)
          (here, length-set s.buff 1 1 ∙ size) (omega arith)
          (ap (λ b. b ∷ []) (get_or-set_self s.buff 1 1 0 (omega arith))) (omega arith, refl) refl)
        (λ t there.
          bind-Yields (receive host outer cmd_timeout) (λ _. answer host >>= collect) t tt atr
            (Got t) Done
            (receive-Yields host node line IsIdle linked outer cmd_timeout Firmware.card_present
              (21 ∷ []) parts (reset_node g) t there (present-IsAnswer (21 ∷ []) (omega arith)))
            (λ u (left, e).
              bind-Yields (answer host) collect u 0x40 atr (Got t) Done
                (answer-Yields host node line IsIdle linked Firmware.card_present (21 ∷ [])
                  (drop 3 t.buff) u (Got t) (omega arith) e (left, e))
                (λ v (left', e').
                  subst (λ (k : ℕ). Yields (read_atr host (suc (suc (suc fuel))) k []) v atr Done)
                    (sym (ap (λ b. get_or b 1 0) e')) (read_atr-Yields fuel g v left'))))
    where
      Done : Session S → Type 0
      Done t = Meets host node line IsIdle linked t (reset_node g) []

      parts : List ℕ
      parts =
          answer_frame Firmware.card_present (take 14 atr)
          ++ (answer_frame Firmware.card_present (drop 14 atr) ++ [])

      Got : Session S → Session S → Type 0
      Got t u =
          Meets host node line IsIdle linked u (reset_node g) parts
          × (u.buff ≡ answer_frame Firmware.card_present (21 ∷ []) ++ drop 3 t.buff)

      collect : ℕ → Run (Session S) Failure (List ℕ)
      collect ans =
          require (ans == ans_card_present) outer
          >> (λ u. read_atr host (suc (suc (suc fuel))) (get_or u.buff 1 0) [] u)

  -- With the firmware in `loop` and nothing on the line, `cardemu_card_reset` for the slot 0 stores
  -- at its first try as much of the firmware's 21 bytes of ATR as the caller has room for, and
  -- returns their number; the firmware's `status` then says that the card is there.
  pub card_reset-firmware :
      (fuel size : ℕ) (g : Globals) (port : S)
      → Stands host node line IsIdle linked port (record { mode = in_loop; globals = g }) []
      → let out = card_reset host (suc (suc (suc fuel))) 0 size port in
        (out.0 ≡ returned (pos (min 21 size)) (take (min 21 size) atr))
        × Stands host node line IsIdle linked out.1 (reset_node g) []
  unfolding card_reset reset_reply
  card_reset-firmware fuel size g port here =
      let (ends, (there, _)) = reset_try-Yields fuel g (begin host port) (here, room) in
      subst
        (λ (out : Outcome (List ℕ) × Session S).
          (reset_reply host size out.0 ≡ returned (pos (min 21 size)) (take (min 21 size) atr))
          × Stands host node line IsIdle linked out.1.port (reset_node g) [])
        (sym (
          retry-done host node line IsIdle linked 2 (reset_try host (suc (suc (suc fuel))))
            (begin host port) atr ends))
        (ap (λ (k : ℕ). returned (pos k) (take k atr)) (ground arith), there)
