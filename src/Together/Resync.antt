-- ===== src/Together/Resync.antt =====
-- `resync` of OpenCTDriver/src/ifd/ifd-cardemu.c with the firmware at the other end.
use open_pgpcard_emu.Base.{
  ℕ, suc, ◌+◌, ◌<◌, ◌≡◌, refl, sym, ap, subst, Bool, true, List, [], ◌∷◌, ◌++◌, arith, length,
  length-append,
}
use open_pgpcard_emu.Base.Run.{Run, Result, ok, err, ◌>>=◌, ◌>>◌, require, lift}
use open_pgpcard_emu.Base.Slice.{slice, length-slice}
use open_pgpcard_emu.Frame.{answer_fits}
use open_pgpcard_emu.Cardemu.Session.{Host, Session, Failure, outer, begin}
use open_pgpcard_emu.Cardemu.Resync.{
  send_or_stop, drain, expect, fill_random, same_payload, expect_echo, resync_round, resync_tries,
  max_resync_garbage, cmd_timeout,
}
use open_pgpcard_emu.Cardemu.Resync as HostResync
use open_pgpcard_emu.Firmware.Answer.{answer_frame}
use open_pgpcard_emu.Firmware.Comm.{
  ReqType, resync, resync_complete, req_code, resync_answer, ok_answer, ans_code, request_fits,
}
use open_pgpcard_emu.Firmware.Loop.{Globals}
use open_pgpcard_emu.Firmware.React.{Mode, in_loop, in_resync, Node, Answer, bare, react, frames}
use open_pgpcard_emu.Firmware.Receive.{IsRequest, request_of}
use open_pgpcard_emu.Together.Link.{IsLinked, Stands}
use open_pgpcard_emu.Together.Echo.{At, echo-Yields, resync-IsRequest, resync-IsAnswer}
use open_pgpcard_emu.Together.Steps.{
  Yields, bind-Yields, send_or_stop-Yields, expect-Yields, drain-linked, fill_random-linked,
}

-- What a resynchronisation leaves of the globals: the announced bytes are forgotten.
abbrev pub forget : Mode → Globals → Globals
forget in_loop g = record g { write_pending = 0 }
forget (in_resync state) g = g

abbrev first : Mode → ℕ
first in_loop = 0
first (in_resync state) = 1

react-first :
    (mode : Mode) (g : Globals)
    → react (record { mode = mode; globals = g }) (request_of resync [])
      ≡ (bare resync_answer, record { mode = in_resync (first mode); globals = forget mode g })
unfolding react
react-first in_loop g = refl
react-first (in_resync state) g = refl

react-echo :
    (state : ℕ) (g : Globals) (p : List ℕ)
    → react (record { mode = in_resync state; globals = g }) (request_of resync p) ≡ (
      record { kind = resync_answer; payload = p } ∷ [],
      record { mode = in_resync 1; globals = g },
    )
unfolding react
react-echo state g p = refl

react_complete :
    (g : Globals)
    → react (record { mode = in_resync 1; globals = g }) (request_of resync_complete [])
      ≡ (bare ok_answer, record { mode = in_loop; globals = g })
unfolding react
react_complete g = refl

module _ {S : Type 0} (host : Host S) (node : S → Node) (line : S → List ℕ) (IsIdle : S → Type 0)
    (linked : IsLinked host node line IsIdle) (room : length host.stack ≡ 16) where
  -- A request with no payload, and the answer that the table gives.
  send-Yields :
      (kind : ReqType) (n n' : Node) (answers : List Answer) (bytes : List ℕ) (s : Session S)
      → At host node line IsIdle linked room n bytes s
      → IsRequest kind []
      → react n (request_of kind []) ≡ (answers, n')
      → Yields
          (send_or_stop host (req_code kind) 0)
          s
          tt
          (At host node line IsIdle linked room n' (bytes ++ frames answers))
  unfolding slice
  send-Yields kind n n' answers bytes s here request e =
      let (done, (there, _)) =
        send_or_stop-Yields host node line IsIdle linked kind 0 n bytes s here (omega arith)
          request in
      (
        done,
        subst
            (λ (r : List Answer × Node).
              At host node line IsIdle linked room r.1 (bytes ++ frames r.0)
                (send_or_stop host (req_code kind) 0 s).1)
            e there,
      )

  abbrev finish : Run (Session S) Failure (Unit {0})
  finish = send_or_stop host (req_code resync_complete) 0 >> expect host 2 (ans_code ok_answer)

  finish-Yields :
      (g : Globals) (s : Session S)
      → At host node line IsIdle linked room (record { mode = in_resync 1; globals = g }) [] s
      → Yields finish s tt
          (At host node line IsIdle linked room (record { mode = in_loop; globals = g }) [])
  unfolding request_fits req_code answer_fits ans_code
  finish-Yields g s here =
      let done : Node = record { mode = in_loop; globals = g } in
      bind-Yields (send_or_stop host (req_code resync_complete) 0)
        (λ _. expect host 2 (ans_code ok_answer)) s tt tt
        (At host node line IsIdle linked room done (frames (bare ok_answer)))
        (At host node line IsIdle linked room done [])
        (send-Yields resync_complete _ done (bare ok_answer) [] s here (omega arith, refl)
          (react_complete g))
        (λ t there.
          expect-Yields host node line IsIdle linked ok_answer [] done t there (omega arith, refl))

  abbrev control : Run (Session S) Failure (Unit {0})
  control = send_or_stop host (req_code resync) 14 >> (expect_echo host >> finish)

  control-Yields :
      (g : Globals) (s : Session S)
      → At host node line IsIdle linked room (record { mode = in_resync 1; globals = g }) [] s
      → Yields control s tt
          (At host node line IsIdle linked room (record { mode = in_loop; globals = g }) [])
  unfolding react
  control-Yields g s here =
      let armed : Node = record { mode = in_resync 1; globals = g } in
      let done : Node = record { mode = in_loop; globals = g } in
      let p = slice 1 14 s.buff in
      bind-Yields (send_or_stop host (req_code resync) 14) (λ _. expect_echo host >> finish) s tt tt
        (λ t.
          At host node line IsIdle linked room armed (answer_frame resync_answer p ++ []) t
          × (slice 1 14 t.buff ≡ p))
        (At host node line IsIdle linked room done [])
        (send_or_stop-Yields host node line IsIdle linked resync 14 armed [] s here (omega arith) (
          resync-IsRequest host node line IsIdle linked room p
            (omega (arith, length-slice 1 14 s.buff))))
        (λ t (there, kept).
          bind-Yields (expect_echo host) (λ _. finish) t tt tt
            (At host node line IsIdle linked room armed [])
            (At host node line IsIdle linked room done [])
            (echo-Yields host node line IsIdle linked room armed t (
              subst
                (λ q.
                  At host node line IsIdle linked room armed (answer_frame resync_answer q ++ []) t)
                (sym kept) there))
            (finish-Yields g))

  abbrev restart : Run (Session S) Failure (Unit {0})
  restart =
      send_or_stop host (req_code resync) 0
      >> (expect host 2 (ans_code resync_answer)
          >> (lift (λ t. (tt, fill_random host 14 0 t)) >> control))

  restart-Yields :
      (state : ℕ) (g : Globals) (s : Session S)
      → At host node line IsIdle linked room (record { mode = in_resync state; globals = g }) [] s
      → Yields restart s tt
          (At host node line IsIdle linked room (record { mode = in_loop; globals = g }) [])
  restart-Yields state g s here =
      let armed : Node = record { mode = in_resync 1; globals = g } in
      let done : Node = record { mode = in_loop; globals = g } in
      bind-Yields (send_or_stop host (req_code resync) 0)
        (λ _.
          expect host 2 (ans_code resync_answer)
          >> (lift (λ t. (tt, fill_random host 14 0 t)) >> control))
        s tt tt (At host node line IsIdle linked room armed (frames (bare resync_answer)))
        (At host node line IsIdle linked room done [])
        (send-Yields resync _ armed (bare resync_answer) [] s here
          (resync-IsRequest host node line IsIdle linked room [] (omega arith))
          (react-echo state g []))
        (λ t there.
          bind-Yields (expect host 2 (ans_code resync_answer))
            (λ _. lift (λ u. (tt, fill_random host 14 0 u)) >> control) t tt tt
            (At host node line IsIdle linked room armed [])
            (At host node line IsIdle linked room done [])
            (expect-Yields host node line IsIdle linked resync_answer [] armed t there
              (resync-IsAnswer host node line IsIdle linked room [] (omega arith)))
            (λ u there'.
              control-Yields g (fill_random host 14 0 u)
                (fill_random-linked host node line IsIdle linked 14 0 armed [] u there')))

  resync_round-Yields :
      (mode : Mode) (g : Globals) (bytes : List ℕ) (s : Session S)
      → At host node line IsIdle linked room (record { mode = mode; globals = g }) bytes s
      → length bytes + 3 < 4096
      → Yields (resync_round host) s tt (
          At host node line IsIdle linked room
            (record { mode = in_loop; globals = forget mode g })
            [])
  unfolding resync_round req_code ans_code
  resync_round-Yields mode g bytes s here few =
      let n : Node = record { mode = in_resync (first mode); globals = forget mode g } in
      let done : Node = record { mode = in_loop; globals = forget mode g } in
      let carried = bytes ++ frames (bare resync_answer) in
      bind-Yields (send_or_stop host (req_code resync) 0)
        (λ _. lift (drain host max_resync_garbage) >>= λ drained. require drained outer >> restart)
        s tt tt (At host node line IsIdle linked room n carried)
        (At host node line IsIdle linked room done [])
        (send-Yields resync _ n (bare resync_answer) bytes s here
          (resync-IsRequest host node line IsIdle linked room [] (omega arith))
          (react-first mode g))
        (λ t there.
          let (drained, there') =
            drain-linked host node line IsIdle linked max_resync_garbage carried n t there
              (omega (arith, length-append bytes (frames (bare resync_answer)))) in
          bind-Yields (lift (drain host max_resync_garbage))
            (λ drained. require drained outer >> restart) t true tt
            (At host node line IsIdle linked room n [])
            (At host node line IsIdle linked room done []) (ap ok drained, there')
            (restart-Yields (first mode) (forget mode g)))

  tries-first :
      (n : ℕ) (s : Session S)
      → (resync_round host s).0 ≡ ok tt
      → resync_tries host (suc n) s ≡ (true, (resync_round host s).1)
  unfolding resync_tries
  tries-first n s done = ap after done
    where
      after : Result Failure (Unit {0}) → Bool × Session S
      after r = elim r [
        | ok _ ↦ (true, (resync_round host s).1)
        | err _ ↦ resync_tries host n (resync_round host s).1
      ]

  -- With the firmware at the other end of the line, waiting for a request in any of its states, and
  -- fewer than 4093 bytes unread, `resync` succeeds at its first try. It leaves the firmware in
  -- `loop`, nothing on the line, and the globals as they were, but for the announced bytes if the
  -- firmware was in `loop` before.
  pub resync-succeeds :
      (mode : Mode) (g : Globals) (bytes : List ℕ) (port : S)
      → Stands host node line IsIdle linked port (record { mode = mode; globals = g }) bytes
      → length bytes < 4093
      → ((HostResync.resync host port).0 ≡ true)
        × Stands host node line IsIdle linked
            (HostResync.resync host port).1
            (record { mode = in_loop; globals = forget mode g })
            []
  unfolding HostResync.resync
  resync-succeeds mode g bytes port here few =
      let (done, (there, _)) =
        resync_round-Yields mode g bytes (begin host port) (here, room) (omega arith) in
      subst
        (λ (out : Bool × Session S).
          (out.0 ≡ true)
          × Stands host node line IsIdle linked out.1.port
              (record { mode = in_loop; globals = forget mode g }) [])
        (sym (tries-first 9 (begin host port) done)) (refl, there)
