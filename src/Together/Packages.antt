-- ===== src/Together/Packages.antt =====
-- The data packages of `cardemu_send` in OpenCTDriver/src/ifd/ifd-cardemu.c with the firmware at the
-- other end.
use open_pgpcard_emu.Base.{
  ℕ, zero, suc, ◌+◌, ◌-◌, ◌≤◌, ◌≡◌, ◌≢◌, refl, ◌∙◌, sym, ap, ap₂, subst, true, false, List, [],
  ◌++◌, arith, ltb, ◌==◌, take, drop, length, length-drop, inl, inr, Bool-cases,
}
use open_pgpcard_emu.Base.Run.{ok, ◌>>=◌, ◌>>◌, require}
use open_pgpcard_emu.Base.Slice.{slice, length-slice}
use open_pgpcard_emu.Frame.{outside, message, ans_ok, answer_fits}
use open_pgpcard_emu.Frame.Build.{frame, header_of, message-frame}
use open_pgpcard_emu.Cardemu.Session.{Host, Session, inner, send_message}
use open_pgpcard_emu.Cardemu.Resync.{cmd_timeout}
use open_pgpcard_emu.Cardemu.Retry.{receive, answer}
use open_pgpcard_emu.Cardemu.Transmit.{send_package, send_packages, package_len}
use open_pgpcard_emu.Firmware.Comm.{ReqType, card_send, req_code, ok_answer, ans_code, request_fits}
use open_pgpcard_emu.Firmware.React.{in_loop, Node, Answer, bare, react, frames}
use open_pgpcard_emu.Firmware.Receive.{IsRequest, request_of}
use open_pgpcard_emu.Together.Link.{IsLinked}
use open_pgpcard_emu.Together.Exchange.{Meets, comm_send-linked}
use open_pgpcard_emu.Together.Steps.{Yields, bind-Yields}
use open_pgpcard_emu.Together.Echo.{require_then}
use open_pgpcard_emu.Together.Commands.{reply-Comes}

-- A send request may carry from 1 to 14 bytes.
pub send-IsRequest : (p : List ℕ) → 1 ≤ length p → length p ≤ 14 → IsRequest card_send p
unfolding request_fits req_code
send-IsRequest p some_byte short = (short, ground arith)

module _ {S : Type 0} (host : Host S) (node : S → Node) (line : S → List ℕ) (IsIdle : S → Type 0)
    (linked : IsLinked host node line IsIdle) where
  send_outside-linked :
      (kind : ReqType) (target : List ℕ) (pl_len : ℕ) (n : Node) (bytes : List ℕ) (s : Session S)
      → Meets host node line IsIdle linked s n bytes
      → pl_len ≤ 14
      → IsRequest kind (slice 0 pl_len target)
      → let out = send_message host (req_code kind) (outside target) pl_len s in
        let reacted = react n (request_of kind (slice 0 pl_len target)) in
        (out.0 ≡ (pl_len + 2, pl_len + 2))
        × Meets host node line IsIdle linked out.1 reacted.1 (bytes ++ frames reacted.0)
  unfolding send_message
  send_outside-linked kind target pl_len n bytes s (here, room) short request =
      let payload = slice 0 pl_len target in
      let len-payload : length payload ≡ pl_len = length-slice 0 pl_len target in
      let built =
        message-frame (req_code kind) (outside target) pl_len s.buff short (omega arith) in
      let sent =
        comm_send-linked host node line IsIdle linked kind payload
          (message (req_code kind) (outside target) pl_len s.buff).1
          (message (req_code kind) (outside target) pl_len s.buff).0 n bytes s.port here request
          (ap (λ k. take k (message (req_code kind) (outside target) pl_len s.buff).1) built.0
            ∙ built.1
            ∙ ap (λ k. frame (header_of (req_code kind) k) payload) (sym len-payload))
          (omega (arith, built.0, len-payload)) in
      (ap₂ (λ (a b : ℕ). (a, b)) built.0 (sent.0 ∙ built.0), (sent.1, built.2 ∙ room))

  -- The firmware in `loop`, with bytes announced.
  abbrev pub Expects : ℕ → ℕ → Session S → Type 0
  Expects st wp t =
      Meets host node line IsIdle linked t
        (record { mode = in_loop; globals = record { status = st; write_pending = wp } }) []

  shorter :
      (target : List ℕ) (fuel : ℕ)
      → (length target == 0) ≡ false
      → length target ≤ suc fuel
      → length target - package_len host target ≤ fuel
  shorter target fuel more enough = ground arith

  send_package-Yields :
      (target : List ℕ) (pl_len st wp : ℕ) (s : Session S)
      → Expects st wp s
      → wp ≢ 0
      → 1 ≤ pl_len
      → pl_len ≤ 14
      → Yields (send_package host target pl_len) s tt (Expects st wp)
  unfolding send_package req_code ans_code answer_fits react
  send_package-Yields target pl_len st wp s here announced some_byte short =
      let p = slice 0 pl_len target in
      let n : Node = record {
        mode = in_loop;
        globals = record { status = st; write_pending = wp };
      } in
      let len : length p ≡ pl_len = length-slice 0 pl_len target in
      let more : ltb 0 wp ≡ true = ground arith in
      let reacts : react n (request_of card_send p) ≡ (bare ok_answer, n) = rw more refl in
      let (sent, there) =
        send_outside-linked card_send target pl_len n [] s here short
          (send-IsRequest p (omega (arith, len)) (omega (arith, len))) in
      let t = (send_message host 0x40 (outside target) pl_len s).1 in
      require_then _ inner
        (receive host inner cmd_timeout >> (answer host >>= λ ans. require (ans == ans_ok) inner)) t
        tt (Expects st wp) (rw sent (ground arith))
        (reply-Comes host node line IsIdle linked inner cmd_timeout ok_answer n t
          (λ ans. require (ans == ans_ok) inner) (ok tt) (Expects st wp)
          (subst (λ (r : List Answer × Node). Meets host node line IsIdle linked t r.1 (frames r.0))
            reacts there)
          (omega arith, refl) (λ u quiet. (refl, quiet)))

  pub send_packages-Yields :
      (fuel : ℕ) (target : List ℕ) (st wp : ℕ) (s : Session S)
      → Expects st wp s
      → wp ≢ 0
      → length target ≤ fuel
      → Yields (send_packages host fuel target) s tt (Expects st wp)
  unfolding send_packages
  send_packages-Yields zero target st wp s here announced enough =
      rw (let none : (length target == 0) ≡ true = ground arith in none, send_packages) (refl, here)
  send_packages-Yields (suc fuel) target st wp s here announced enough =
      elim (Bool-cases (length target == 0)) [
        | inl none ↦ rw (none, send_packages) (refl, here)
        | inr more ↦
            rw (more, send_packages)
              (bind-Yields (send_package host target (package_len host target))
                (λ _. send_packages host fuel (drop (package_len host target) target)) s tt tt
                (Expects st wp) (Expects st wp)
                (send_package-Yields target (package_len host target) st wp s here announced
                  (ground arith) (ground arith))
                (λ t there.
                  send_packages-Yields fuel (drop (package_len host target) target) st wp t there
                    announced
                    (omega (
                      arith,
                      length-drop (package_len host target) target,
                      shorter target fuel more enough,
                    ))))
      ]
