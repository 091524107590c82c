-- ===== src/Together/Steps.antt =====
-- The steps of `resync` in OpenCTDriver/src/ifd/ifd-cardemu.c, over a line with the firmware at
-- the other end.
use open_pgpcard_emu.Base.{
  ℕ, zero, suc, ◌+◌, ◌≤◌, ◌<◌, ◌≡◌, refl, ◌∙◌, sym, ap, subst, Bool, true, false, List, [], ◌∷◌,
  ◌++◌, arith, ◌==◌, ==_refl, set, drop, length-drop, length, length-append, length-set,
}
use open_pgpcard_emu.Base.Run.{Run, Result, ok, ◌>>=◌, ◌>>◌, require, lift}
use open_pgpcard_emu.Base.Slice.{slice}
use open_pgpcard_emu.Device.{device_recv}
use open_pgpcard_emu.Crc8.{crc8}
use open_pgpcard_emu.Frame.{inside, get_ans_mask}
use open_pgpcard_emu.Frame.Build.{header_of}
use open_pgpcard_emu.Line.Receive.{comm_recv-delivered}
use open_pgpcard_emu.Line.{comm_recv, recv_bytes, classify}
use open_pgpcard_emu.Cardemu.Session.{Host, Session, Failure, outer, send_message, recv_message}
use open_pgpcard_emu.Cardemu.Resync.{send_or_stop, drain, expect, fill_random, cmd_timeout}
use open_pgpcard_emu.Firmware.Answer.{answer_frame}
use open_pgpcard_emu.Firmware.Codes.{ans-fields}
use open_pgpcard_emu.Firmware.Comm.{ReqType, req_code, AnsType, ans_code}
use open_pgpcard_emu.Firmware.React.{Node, react, frames}
use open_pgpcard_emu.Firmware.Receive.{IsRequest, request_of}
use open_pgpcard_emu.Together.Link.{IsLinked, line-Delivers}
use open_pgpcard_emu.Together.Exchange.{
  Meets, IsAnswer, send_message-linked, comm_recv_message-linked,
}

-- A try ends with this result, in a state with this property.
abbrev pub Comes : {S A : Type 0} → Run S Failure A → S → Result Failure A → (S → Type 0) → Type 0
Comes m s r P = ((m s).0 ≡ r) × P (m s).1

-- A try ends well with this value.
abbrev pub Yields : {S A : Type 0} → Run S Failure A → S → A → (S → Type 0) → Type 0
Yields m s a P = Comes m s (ok a) P

pub bind-Comes :
    {S A B : Type 0} (m : Run S Failure A) (k : A → Run S Failure B) (s : S) (a : A)
    (r : Result Failure B) (P Q : S → Type 0)
    → Yields m s a P
    → ((t : S) → P t → Comes (k a) t r Q)
    → Comes (m >>= k) s r Q
bind-Comes m k s a r P Q (e, p) next = rw e (next (m s).1 p)

pub bind-Yields :
    {S A B : Type 0} (m : Run S Failure A) (k : A → Run S Failure B) (s : S) (a : A) (b : B)
    (P Q : S → Type 0)
    → Yields m s a P
    → ((t : S) → P t → Yields (k a) t b Q)
    → Yields (m >>= k) s b Q
bind-Yields m k s a b P Q = bind-Comes m k s a (ok b) P Q

pub require-Yields :
    {S : Type 0} (test : Bool) (e : Failure) (s : S) (P : S → Type 0)
    → test ≡ true
    → P s
    → Yields (require test e) s tt P
require-Yields test e s P holds p = rw holds (refl, p)

-- The kind of an answer in the buffer.
pub get_ans_mask-answer :
    (ans : AnsType) (payload rest : List ℕ)
    → length payload ≤ 14
    → get_ans_mask (answer_frame ans payload ++ rest) ≡ ans_code ans
unfolding get_ans_mask
get_ans_mask-answer ans payload rest short = (ans-fields ans (length payload) short).1

module _ {S : Type 0} (host : Host S) (node : S → Node) (line : S → List ℕ) (IsIdle : S → Type 0)
    (linked : IsLinked host node line IsIdle) where
  pub send_or_stop-Yields :
      (kind : ReqType) (pl_len : ℕ) (n : Node) (bytes : List ℕ) (s : Session S)
      → Meets host node line IsIdle linked s n bytes
      → pl_len ≤ 14
      → IsRequest kind (slice 1 pl_len s.buff)
      → let reacted = react n (request_of kind (slice 1 pl_len s.buff)) in
        Yields (send_or_stop host (req_code kind) pl_len) s tt (λ t.
          Meets host node line IsIdle linked t reacted.1 (bytes ++ frames reacted.0)
          × (slice 1 pl_len t.buff ≡ slice 1 pl_len s.buff))
  unfolding send_or_stop
  send_or_stop-Yields kind pl_len n bytes s here short request =
      let (e, there, kept) =
        send_message-linked host node line IsIdle linked kind pl_len n bytes s here short request in
      let t = (send_message host (req_code kind) (inside 1) pl_len s).1 in
      let reacted = react n (request_of kind (slice 1 pl_len s.buff)) in
      require-Yields _ outer t
        (λ u.
          Meets host node line IsIdle linked u reacted.1 (bytes ++ frames reacted.0)
          × (slice 1 pl_len u.buff ≡ slice 1 pl_len s.buff))
        (rw e (ground arith)) (there, kept)

  pub recv_message-Yields :
      (timeout : ℕ) (ans : AnsType) (payload rest : List ℕ) (n : Node) (s : Session S)
      → Meets host node line IsIdle linked s n (answer_frame ans payload ++ rest)
      → IsAnswer host node line IsIdle linked ans payload
      → Yields (lift (recv_message host timeout)) s (length payload + 2) (λ t.
        Meets host node line IsIdle linked t n rest
        × (t.buff ≡ answer_frame ans payload ++ drop (length payload + 2) s.buff))
  unfolding recv_message
  recv_message-Yields timeout ans payload rest n s (here, room) answer =
      let (e, there) =
        comm_recv_message-linked host node line IsIdle linked timeout ans payload rest n s.buff
          s.port here answer room in
      (
        ap (λ (out : ℕ × List ℕ). ok out.0) e,
        (
          (there, ap (λ (out : ℕ × List ℕ). length out.1) e ∙ whole),
          ap (λ (out : ℕ × List ℕ). out.1) e,
        ),
      )
    where
      header : ℕ
      header = header_of (ans_code ans) (length payload)

      whole : length (answer_frame ans payload ++ drop (length payload + 2) s.buff) ≡ 16
      whole = omega (
        arith,
        length-append (answer_frame ans payload) (drop (length payload + 2) s.buff),
        length-append (header ∷ payload) (crc8 (header ∷ payload) ∷ []),
        length-drop (length payload + 2) s.buff,
        room,
        answer.0,
      )

  pub expect-Yields :
      (ans : AnsType) (rest : List ℕ) (n : Node) (s : Session S)
      → Meets host node line IsIdle linked s n (answer_frame ans [] ++ rest)
      → IsAnswer host node line IsIdle linked ans []
      → Yields
          (expect host 2 (ans_code ans))
          s
          tt
          (λ t. Meets host node line IsIdle linked t n rest)
  unfolding expect
  expect-Yields ans rest n s here answer =
      bind-Yields (lift (recv_message host cmd_timeout))
        (λ (len : ℕ).
          require (len == 2) outer >> (λ t. require (get_ans_mask t.buff == ans_code ans) outer t))
        s 2 tt
        (λ t.
          Meets host node line IsIdle linked t n rest
          × (t.buff ≡ answer_frame ans [] ++ drop 2 s.buff))
        (λ t. Meets host node line IsIdle linked t n rest)
        (recv_message-Yields cmd_timeout ans [] rest n s here answer)
        (λ t (there, e).
          require-Yields (get_ans_mask t.buff == ans_code ans) outer t
            (λ u. Meets host node line IsIdle linked u n rest)
            (ap (λ b. get_ans_mask b == ans_code ans) e
              ∙ ap (λ (k : ℕ). k == ans_code ans)
                  (get_ans_mask-answer ans [] (drop 2 s.buff) (omega arith))
              ∙ ==_refl (ans_code ans))
            there)

  comm_recv-silent :
      (buff : List ℕ) (port : S)
      → line port ≡ []
      → IsIdle port
      → comm_recv host.device 0 1 cmd_timeout buff port
        ≡ ((0, buff), (device_recv host.device port 1 cmd_timeout).2)
  unfolding comm_recv recv_bytes classify
  comm_recv-silent buff port empty idle =
      let (r, none, _, _, _) = linked.silent cmd_timeout port empty idle in
      rw (r, comm_recv, recv_bytes) (rw (none, comm_recv, recv_bytes) refl)

  drain-step :
      (fuel : ℕ) (s : Session S) (out : (ℕ × List ℕ) × S)
      → comm_recv host.device 0 1 cmd_timeout s.buff s.port ≡ out
      → drain host (suc fuel) s ≡ elim (out.0.0 == 0) [
        | true ↦ (true, record s { port = out.1; buff = out.0.1 })
        | false ↦ drain host fuel (record s { port = out.1; buff = out.0.1 })
      ]
  unfolding drain
  drain-step fuel s out e = ap after e
    where
      after : (ℕ × List ℕ) × S → Bool × Session S
      after o = elim (o.0.0 == 0) [
        | true ↦ (true, record s { port = o.1; buff = o.0.1 })
        | false ↦ drain host fuel (record s { port = o.1; buff = o.0.1 })
      ]

  abbrev Drained : Node → Bool × Session S → Type 0
  Drained n out = (out.0 ≡ true) × Meets host node line IsIdle linked out.1 n []

  -- The drain of a line that carries fewer bytes than it reads at most.
  pub drain-linked :
      (fuel : ℕ) (bytes : List ℕ) (n : Node) (s : Session S)
      → Meets host node line IsIdle linked s n bytes
      → length bytes < fuel
      → Drained n (drain host fuel s)
  drain-linked zero bytes n s here h = absurd (omega arith)
  drain-linked (suc fuel) [] n s ((at, there, idle), room) h =
      let (_, _, at', there', idle') = linked.silent cmd_timeout s.port there idle in
      subst (Drained n) (sym (drain-step fuel s _ (comm_recv-silent s.buff s.port there idle)))
        (refl, ((at' ∙ at, there', idle'), room))
  drain-linked (suc fuel) (b ∷ bytes) n s (here, room) h =
      let (t, delivers, there) =
        line-Delivers host node line IsIdle linked cmd_timeout (b ∷ []) bytes n s.port here in
      subst (Drained n)
        (sym (
          drain-step fuel s _
            (comm_recv-delivered host.device (b ∷ []) 0 cmd_timeout s.buff s.port t delivers)))
        (drain-linked fuel bytes n (record s { port = t; buff = set s.buff 0 b })
          (there, length-set s.buff 0 b ∙ room) (omega arith))

  pub fill_random-linked :
      (k h : ℕ) (n : Node) (bytes : List ℕ) (s : Session S)
      → Meets host node line IsIdle linked s n bytes
      → Meets host node line IsIdle linked (fill_random host k h s) n bytes
  unfolding fill_random
  fill_random-linked zero h n bytes s here = here
  fill_random-linked (suc k) h n bytes s ((at, there, idle), room) =
      let (at', there', idle') = linked.random s.port idle in
      fill_random-linked k (suc h) n bytes _
        ((at' ∙ at, there' ∙ there, idle'), length-set s.buff (1 + h) _ ∙ room)
