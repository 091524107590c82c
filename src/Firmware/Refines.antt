-- ===== src/Firmware/Refines.antt =====
-- One turn of ArduinoCardEmu/main_loop.cpp against the table in React.
use open_pgpcard_emu.Base.{
  ℕ, zero, suc, ◌≤◌, ◌≡◌, refl, subst, List, [], ◌++◌, append-nil, Option, none, some, arith, ◌==◌,
  length,
}
use open_pgpcard_emu.Base.Run.{pure}
use open_pgpcard_emu.Firmware.Board.{Board}
use open_pgpcard_emu.Firmware.Comm.{
  ReqType, invalid, card_status, card_send, card_commit, card_read, card_read_complete,
  resync_complete, resync, ok_answer, resync_answer, receive_request,
}
use open_pgpcard_emu.Firmware.Loop.{
  Globals, loop_round, resync_round, send_resync, refuse, complete, armed, cleared, resync_handle,
}
use open_pgpcard_emu.Firmware.React.{
  Mode, in_loop, in_resync, Node, Answer, bare, serve, after_serve, resync_react, react_in, react,
  frames, after_loop_round, after_resync_round, turn_in, turn,
}
use open_pgpcard_emu.Firmware.Receive.{request_frame, IsRequest, request_of, receive_request-frame}
use open_pgpcard_emu.Firmware.Implements.{then-Does, dispatch-serve, outcome, said}
use open_pgpcard_emu.Firmware.Wire.{IsWired, Does, pure-Does, bind-Does}

-- `resyncState` is 0 or 1.
abbrev pub IsReady : Mode → Type 0
IsReady in_loop = Unit
IsReady (in_resync state) = state ≤ 1

-- What `resync` does with one request, as the new value of `resyncState` or none.
abbrev state_of : Mode → Option ℕ
state_of in_loop = none
state_of (in_resync state) = some state

-- What is sent after the answers: the notification that a resynchronisation starts.
abbrev follow : Option (List Answer × Globals) → List ℕ
follow (some served) = []
follow none = frames (bare resync_answer) ++ []

said-follow :
    (served : Option (List Answer × Globals)) (g : Globals)
    → said served ++ follow served ≡ frames (after_serve served g).0
said-follow (some (answers, g')) g = append-nil (frames answers)
said-follow none g = append-nil (frames (bare resync_answer))

module _ {S : Type 0} (board : Board S) (inbox outbox : S → List ℕ)
    (wired : IsWired board inbox outbox) (room : length board.stack ≡ 16)
    (patience rounds : ℕ) where
  send_resync-Does :
      (s : S) (rest : List ℕ)
      → inbox s ≡ rest
      → Does inbox outbox
          (send_resync board (suc patience) rounds)
          s
          tt
          rest
          (frames (bare resync_answer))
  unfolding send_resync
  send_resync-Does s rest same =
      then-Does board inbox outbox wired room patience rounds resync_answer [] (λ sent. pure tt) s
        tt rest [] (omega arith) same (λ t. pure-Does inbox outbox tt t rest)

  after_serve-Does :
      (served : Option (List Answer × Globals)) (g : Globals) (s : S) (rest : List ℕ)
      → inbox s ≡ rest
      → Does inbox outbox
          (after_loop_round board (suc patience) rounds (outcome served g).0 (outcome served g).1)
          s
          (after_serve served g).1
          rest
          (follow served)
  unfolding after_loop_round
  after_serve-Does (some (answers, g')) g s rest same =
      pure-Does inbox outbox (record { mode = in_loop; globals = g' }) s rest same
  after_serve-Does none g s rest same =
      bind-Does inbox outbox (send_resync board (suc patience) rounds)
        (λ _. pure (after_serve none g).1) s tt (after_serve none g).1 rest rest
        (frames (bare resync_answer)) [] (send_resync-Does s rest same)
        (λ t. pure-Does inbox outbox (after_serve none g).1 t rest)

  refuse-Does :
      (state : ℕ) (s : S) (rest : List ℕ)
      → inbox s ≡ rest
      → Does inbox outbox
          (refuse board (suc patience) rounds state)
          s
          (some state)
          rest
          (frames (bare resync_answer))
  unfolding refuse
  refuse-Does state s rest same =
      bind-Does inbox outbox (send_resync board (suc patience) rounds) (λ _. pure (some state)) s tt
        (some state) rest rest (frames (bare resync_answer)) [] (send_resync-Does s rest same)
        (λ t. pure-Does inbox outbox (some state) t rest)

  resync_handle-react :
      (state : ℕ) (k : ReqType) (payload : List ℕ) (kind : ReqType) (s : S) (rest : List ℕ)
      → state ≤ 1
      → length payload ≤ 14
      → inbox s ≡ rest
      → Does inbox outbox
          (resync_handle board (suc patience) rounds state (request_of k payload) kind)
          s
          (state_of (resync_react (state == 1) (request_of k payload) kind).1)
          rest
          (frames (resync_react (state == 1) (request_of k payload) kind).0)
  unfolding resync_handle cleared armed complete
  resync_handle-react zero k payload invalid s rest bit short same = refuse-Does 0 s rest same
  resync_handle-react zero k payload card_status s rest bit short same = refuse-Does 0 s rest same
  resync_handle-react zero k payload card_send s rest bit short same = refuse-Does 0 s rest same
  resync_handle-react zero k payload card_commit s rest bit short same = refuse-Does 0 s rest same
  resync_handle-react zero k payload card_read s rest bit short same = refuse-Does 0 s rest same
  resync_handle-react zero k payload card_read_complete s rest bit short same =
      refuse-Does 0 s rest same
  resync_handle-react zero k payload resync_complete s rest bit short same =
      refuse-Does 0 s rest same
  resync_handle-react zero k payload resync s rest bit short same =
      then-Does board inbox outbox wired room patience rounds resync_answer payload
        (λ sent. armed board (suc patience) rounds sent 0) s (some 1) rest [] short same
        (λ t. pure-Does inbox outbox (some 1) t rest)
  resync_handle-react (suc zero) k payload invalid s rest bit short same = refuse-Does 0 s rest same
  resync_handle-react (suc zero) k payload card_status s rest bit short same =
      refuse-Does 0 s rest same
  resync_handle-react (suc zero) k payload card_send s rest bit short same =
      refuse-Does 0 s rest same
  resync_handle-react (suc zero) k payload card_commit s rest bit short same =
      refuse-Does 0 s rest same
  resync_handle-react (suc zero) k payload card_read s rest bit short same =
      refuse-Does 0 s rest same
  resync_handle-react (suc zero) k payload card_read_complete s rest bit short same =
      refuse-Does 0 s rest same
  resync_handle-react (suc zero) k payload resync_complete s rest bit short same =
      then-Does board inbox outbox wired room patience rounds ok_answer []
        (complete board (suc patience) rounds) s none rest [] (omega arith) same
        (λ t. pure-Does inbox outbox none t rest)
  resync_handle-react (suc zero) k payload resync s rest bit short same =
      then-Does board inbox outbox wired room patience rounds resync_answer payload
        (λ sent. armed board (suc patience) rounds sent 0) s (some 1) rest [] short same
        (λ t. pure-Does inbox outbox (some 1) t rest)
  resync_handle-react (suc (suc n)) k payload kind s rest bit short same = absurd (omega arith)

  after_resync_round-state_of :
      (mode : Mode) (g : Globals)
      → after_resync_round board (suc patience) rounds (state_of mode) g
        ≡ record { mode = mode; globals = g }
  unfolding after_resync_round
  after_resync_round-state_of in_loop g = refl
  after_resync_round-state_of (in_resync state) g = refl

module _ {S : Type 0} (board : Board S) (inbox outbox : S → List ℕ)
    (wired : IsWired board inbox outbox) (room : length board.stack ≡ 16)
    (patience rounds : ℕ) where
  turn_in-react :
      (mode : Mode) (g : Globals) (kind : ReqType) (payload : List ℕ) (s : S) (rest : List ℕ)
      → IsReady mode
      → IsRequest kind payload
      → inbox s ≡ request_frame kind payload ++ rest
      → Does inbox outbox
          (turn_in board (suc patience) (suc (suc rounds)) mode g)
          s
          (react_in mode g (request_of kind payload)).1
          rest
          (frames (react_in mode g (request_of kind payload)).0)
  unfolding turn_in loop_round resync_round
  turn_in-react in_loop g kind payload s rest ready request same =
      let served = serve (request_of kind payload) kind g in
      subst
        (Does inbox outbox (turn_in board (suc patience) (suc (suc rounds)) in_loop g) s
          (after_serve served g).1 rest)
        (said-follow served g)
        (bind-Does inbox outbox (loop_round board (suc patience) (suc (suc rounds)) g) _ s
          (outcome served g) (after_serve served g).1 rest rest (said served) (follow served)
          (bind-Does inbox outbox (receive_request board (suc patience) (suc (suc rounds))) _ s
            (request_of kind payload) (outcome served g) rest rest [] (said served)
            (receive_request-frame board inbox outbox wired patience rounds kind payload s rest
              request room same)
            (λ t.
              dispatch-serve board inbox outbox wired room patience (suc (suc rounds))
                (request_of kind payload) kind g t rest))
          (λ t.
            after_serve-Does board inbox outbox wired room patience (suc (suc rounds)) served g t
              rest))
  turn_in-react (in_resync state) g kind payload s rest ready request same =
      let reacted = resync_react (state == 1) (request_of kind payload) kind in
      subst
        (λ node.
          Does inbox outbox (turn_in board (suc patience) (suc (suc rounds)) (in_resync state) g) s
            node rest (frames reacted.0))
        (after_resync_round-state_of board inbox outbox wired room patience (suc (suc rounds))
          reacted.1 g)
        (subst
          (Does inbox outbox (turn_in board (suc patience) (suc (suc rounds)) (in_resync state) g) s
            (after_resync_round board (suc patience) (suc (suc rounds)) (state_of reacted.1) g)
            rest)
          (append-nil (frames reacted.0))
          (bind-Does inbox outbox (resync_round board (suc patience) (suc (suc rounds)) state) _ s
            (state_of reacted.1) _ rest rest (frames reacted.0) []
            (bind-Does inbox outbox (receive_request board (suc patience) (suc (suc rounds))) _ s
              (request_of kind payload) (state_of reacted.1) rest rest [] (frames reacted.0)
              (receive_request-frame board inbox outbox wired patience rounds kind payload s rest
                request room same)
              (λ t.
                resync_handle-react board inbox outbox wired room patience (suc (suc rounds)) state
                  kind payload kind t rest ready request.0))
            (λ t. pure-Does inbox outbox _ t rest)))

  -- One turn of the firmware, on a line that loses nothing, at the message of a request that the
  -- driver may send: it takes the message, writes the messages of the answers that the table of the
  -- protocol gives, and goes on in the mode and with the globals that the table gives.
  pub turn-react :
      (node : Node) (kind : ReqType) (payload : List ℕ) (s : S) (rest : List ℕ)
      → IsReady node.mode
      → IsRequest kind payload
      → inbox s ≡ request_frame kind payload ++ rest
      → Does inbox outbox
          (turn board (suc patience) (suc (suc rounds)) node)
          s
          (react node (request_of kind payload)).1
          rest
          (frames (react node (request_of kind payload)).0)
  unfolding turn react
  turn-react node kind payload s rest ready request same =
      turn_in-react node.mode node.globals kind payload s rest ready request same
