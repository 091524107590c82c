-- ===== src/Together/Status.antt =====
-- `cardemu_card_status` and `cardemu_deactivate` of OpenCTDriver/src/ifd/ifd-cardemu.c with the
-- firmware at the other end.
use open_pgpcard_emu.Base.{
  ℕ, ◌≤◌, ◌≡◌, refl, ◌∙◌, sym, ap, subst, Bool, true, false, ◌||◌, List, [], ◌∷◌, arith, some, ◌==◌,
  if◌then◌else◌, pos, length, length-set, get_or-set_self,
}
use open_pgpcard_emu.Base.Run.{ok, Run, ◌>>=◌, ◌>>◌, pure, require}
use open_pgpcard_emu.Base.Slice.{slice}
use open_pgpcard_emu.Frame.{ans_card_absent, ans_card_present, answer_fits}
use open_pgpcard_emu.Cardemu.Session.{Host, Session, Failure, outer, begin, poke}
use open_pgpcard_emu.Cardemu.Resync.{cmd_timeout}
use open_pgpcard_emu.Cardemu.Retry.{Outcome, request, receive, answer}
use open_pgpcard_emu.Cardemu.Status.{
  ifd_card_present, status_try, status_reply, card_status, deactivate_try, deactivate_code,
  deactivate,
}
use open_pgpcard_emu.Firmware.Comm as Firmware
use open_pgpcard_emu.Firmware.Comm.{req_code, ans_code, request_fits}
use open_pgpcard_emu.Firmware.Loop.{Globals, is_card_present, set_card_status}
use open_pgpcard_emu.Firmware.React.{in_loop, Node, bare, react, frames}
use open_pgpcard_emu.Firmware.Receive.{IsRequest, request_of}
use open_pgpcard_emu.Together.Link.{IsLinked, Stands}
use open_pgpcard_emu.Together.Exchange.{Meets, IsAnswer}
use open_pgpcard_emu.Together.Steps.{Yields, bind-Yields}
use open_pgpcard_emu.Together.Commands.{request-Yields, reply-Comes, retry-done}

-- What the firmware answers to a query of the status.
abbrev presence : Globals → Firmware.AnsType
presence g = if is_card_present g then Firmware.card_present else Firmware.card_absent

module _ {S : Type 0} (host : Host S) (node : S → Node) (line : S → List ℕ) (IsIdle : S → Type 0)
    (linked : IsLinked host node line IsIdle) (room : length host.stack ≡ 16) where
  abbrev looping : Globals → Node
  looping g = record { mode = in_loop; globals = g }

  abbrev pub Quiet : Globals → Session S → Type 0
  Quiet g t = Meets host node line IsIdle linked t (looping g) []

  -- One request, one bare answer, and its kind.
  pub ask-Yields :
      {B : Type 0} (kind : Firmware.ReqType) (pl_len : ℕ) (payload : List ℕ)
      (ans : Firmware.AnsType) (g g' : Globals) (s : Session S) (k : ℕ → Run (Session S) Failure B)
      (b : B)
      → Quiet g s
      → pl_len ≤ 14
      → slice 1 pl_len s.buff ≡ payload
      → IsRequest kind payload
      → IsAnswer host node line IsIdle linked ans []
      → react (looping g) (request_of kind payload) ≡ (bare ans, looping g')
      → ((t : Session S) → Quiet g' t → Yields (k (ans_code ans)) t b (Quiet g'))
      → Yields
          (request host outer (req_code kind) pl_len
            >> (receive host outer cmd_timeout >> (answer host >>= k)))
          s
          b
          (Quiet g')
  ask-Yields kind pl_len payload ans g g' s k b here short same allowed fits reacts next =
      bind-Yields (request host outer (req_code kind) pl_len)
        (λ _. receive host outer cmd_timeout >> (answer host >>= k)) s tt b
        (λ t. Meets host node line IsIdle linked t (looping g') (frames (bare ans))) (Quiet g')
        (request-Yields host node line IsIdle linked outer kind pl_len payload (looping g)
          (looping g') (bare ans) [] s here short same allowed reacts)
        (λ t there.
          reply-Comes host node line IsIdle linked outer cmd_timeout ans (looping g') t k (ok b)
            (Quiet g') there fits next)

  status_try-Yields :
      (present : Bool) (g : Globals) (s : Session S)
      → is_card_present g ≡ present
      → Quiet g s
      → Yields (status_try host) s (if present then ifd_card_present else 0) (Quiet g)
  unfolding status_try req_code ans_code slice request_fits answer_fits react
  status_try-Yields true g s e here =
      ask-Yields Firmware.card_status 0 [] Firmware.card_present g g s
        (λ ans.
          require (ans == ans_card_absent || ans == ans_card_present) outer
          >> pure (if ans == ans_card_present then ifd_card_present else 0))
        1 here (omega arith) refl (omega arith, refl) (omega arith, refl) (rw e refl)
        (λ t quiet. (refl, quiet))
  status_try-Yields false g s e here =
      ask-Yields Firmware.card_status 0 [] Firmware.card_absent g g s
        (λ ans.
          require (ans == ans_card_absent || ans == ans_card_present) outer
          >> pure (if ans == ans_card_present then ifd_card_present else 0))
        0 here (omega arith) refl (omega arith, refl) (omega arith, refl) (rw e refl)
        (λ t quiet. (refl, quiet))

  -- With the firmware in `loop` and nothing on the line, `cardemu_card_status` for the slot 0 gives
  -- the firmware's `status` at its first try, and changes nothing.
  pub card_status-firmware :
      (g : Globals) (port : S)
      → Stands host node line IsIdle linked port (record { mode = in_loop; globals = g }) []
      → let out = card_status host 0 port in
        (out.0 ≡ record {
          code = pos 0;
          status = some (if is_card_present g then ifd_card_present else 0);
        })
        × Stands host node line IsIdle linked out.1 (record { mode = in_loop; globals = g }) []
  unfolding card_status status_reply
  card_status-firmware g port here =
      let (ends, (there, _)) = status_try-Yields _ g (begin host port) refl (here, room) in
      subst
        (λ (out : Outcome ℕ × Session S).
          (status_reply host out.0 ≡ record {
            code = pos 0;
            status = some (if is_card_present g then ifd_card_present else 0);
          })
          × Stands host node line IsIdle linked out.1.port (looping g) [])
        (sym (retry-done host node line IsIdle linked 2 (status_try host) (begin host port) _ ends))
        (refl, there)

  deactivate_try-Yields :
      (g : Globals) (s : Session S)
      → Quiet g s
      → Yields (deactivate_try host) s tt (Quiet (set_card_status false g))
  unfolding deactivate_try poke req_code ans_code slice request_fits answer_fits react
  deactivate_try-Yields g s (here, size) =
      ask-Yields Firmware.card_status 1 (0 ∷ []) Firmware.card_absent g (set_card_status false g)
        (poke host 1 0 s) (λ ans. require (ans == ans_card_absent) outer) tt
        (here, length-set s.buff 1 0 ∙ size) (omega arith)
        (ap (λ b. b ∷ []) (get_or-set_self s.buff 1 0 0 (omega arith))) (omega arith, refl)
        (omega arith, refl) refl (λ t quiet. (refl, quiet))

  -- With the firmware in `loop` and nothing on the line, `cardemu_deactivate` returns 0 at its first
  -- try, and clears the bit of `status` that says that the card is there.
  pub deactivate-firmware :
      (g : Globals) (port : S)
      → Stands host node line IsIdle linked port (record { mode = in_loop; globals = g }) []
      → let out = deactivate host port in
        (out.0 ≡ pos 0)
        × Stands host node line IsIdle linked out.1
            (record { mode = in_loop; globals = set_card_status false g })
            []
  unfolding deactivate deactivate_code
  deactivate-firmware g port here =
      let (ends, (there, _)) = deactivate_try-Yields g (begin host port) (here, room) in
      subst
        (λ (out : Outcome (Unit {0}) × Session S).
          (deactivate_code host out.0 ≡ pos 0)
          × Stands host node line IsIdle linked out.1.port (looping (set_card_status false g)) [])
        (sym (
          retry-done host node line IsIdle linked 2 (deactivate_try host) (begin host port) tt
            ends))
        (refl, there)
