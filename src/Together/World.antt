-- ===== src/Together/World.antt =====
-- Both programs on one wire: the driver's device is the wire, and the firmware takes a turn at each
-- request. What the wire does is a parameter.
use open_pgpcard_emu.Base.{
  ℕ, suc, ◌≡◌, refl, ◌∙◌, sym, ap, subst, List, [], ◌∷◌, ◌++◌, append-nil, ℤ, pos, negsuc, Option,
  some, none, length,
}
use open_pgpcard_emu.Base.Run.{Result, ok, err}
use open_pgpcard_emu.Device.{device_send, device_recv}
use open_pgpcard_emu.Cardemu.Session.{Host}
use open_pgpcard_emu.Firmware.Board.{Board, Stuck}
use open_pgpcard_emu.Firmware.Comm.{ReqType}
use open_pgpcard_emu.Firmware.React.{Mode, in_loop, in_resync, Node, react, frames, turn}
use open_pgpcard_emu.Firmware.Receive.{request_frame, IsRequest, request_of}
use open_pgpcard_emu.Firmware.Refines.{IsReady, turn-react}
use open_pgpcard_emu.Firmware.Invariant.{IsSound, InMode, react-IsSound}
use open_pgpcard_emu.Firmware.Wire.{IsWired}
use open_pgpcard_emu.Together.Link.{IsLinked}

-- The host's end of the wire: bytes put on it, and the byte taken off it, if there is one.
pub record HostEnd (S : Type 0) : Type 0 where
  pub deliver : List ℕ → S → S
  pub collect : S → Option ℕ × S
  pub random : S → ℕ × S

pub record IsJoined {S : Type 0} (end : HostEnd S) (inbox outbox : S → List ℕ) : Type 0 where
  pub delivers :
      (bytes : List ℕ) (s : S)
      → (inbox (end.deliver bytes s) ≡ inbox s ++ bytes) × (outbox (end.deliver bytes s) ≡ outbox s)
  pub collects :
      (b : ℕ) (rest : List ℕ) (s : S)
      → outbox s ≡ b ∷ rest
      → ((end.collect s).0 ≡ some b)
        × (inbox (end.collect s).1 ≡ inbox s)
        × (outbox (end.collect s).1 ≡ rest)
  pub nothing :
      (s : S)
      → outbox s ≡ []
      → ((end.collect s).0 ≡ none)
        × (inbox (end.collect s).1 ≡ inbox s)
        × (outbox (end.collect s).1 ≡ [])
  pub apart : (s : S) → (inbox (end.random s).1 ≡ inbox s) × (outbox (end.random s).1 ≡ outbox s)

-- The wire with the state of the firmware.
pub record World (S : Type 0) : Type 0 where
  pub wire : S
  pub firmware : Node

module _ {S : Type 0} (board : Board S) (end : HostEnd S) (patience rounds : ℕ) where
  -- The firmware's state after a turn; it stays where it is if the turn does not end.
  abbrev pub moved : Result Stuck Node → Node → Node
  moved (ok n) old = n
  moved (err e) old = old

  abbrev pub world_send : World S → List ℕ → ℤ × World S
  world_send w bytes =
      let (r, s') = turn board patience rounds w.firmware (end.deliver bytes w.wire) in
      (pos (length bytes), record { wire = s'; firmware = moved r w.firmware })

  abbrev pub got : Option ℕ → ℤ
  got (some b) = pos 1
  got none = negsuc 1

  abbrev pub got_bytes : Option ℕ → List ℕ
  got_bytes (some b) = b ∷ []
  got_bytes none = []

  abbrev pub world_recv : World S → ℕ → ℕ → ℤ × List ℕ × World S
  world_recv w len timeout =
      let (b, s') = end.collect w.wire in (got b, got_bytes b, record w { wire = s' })

  abbrev pub world_rand : World S → ℕ × World S
  world_rand w = let (r, s') = end.random w.wire in (r, record w { wire = s' })

  -- The driver on this wire, with these bytes on its stack.
  abbrev pub world_host : List ℕ → Host (World S)
  world_host stack = record {
    device = record { send = some world_send; recv = some world_recv };
    rand = world_rand;
    stack = stack;
  }

-- The firmware waits for a request: it has read all that came, and its globals are as
-- the invariant says.
abbrev pub Waits : {S : Type 0} → (S → List ℕ) → World S → Type 0
Waits inbox w = (inbox w.wire ≡ []) × IsSound w.firmware

ready : (node : Node) → IsSound node → IsReady node.mode
ready node (fits, at) = go node.mode at
  where
    go : (mode : Mode) → InMode mode node.globals → IsReady mode
    go in_loop h = tt
    go (in_resync state) h = h.0

module _ {S : Type 0} (board : Board S) (end : HostEnd S) (patience rounds : ℕ)
    (inbox outbox : S → List ℕ) (wired : IsWired board inbox outbox)
    (joined : IsJoined end inbox outbox) (room : length board.stack ≡ 16) (stack : List ℕ) where
  sends :
      (kind : ReqType) (payload : List ℕ) (w : World S)
      → IsRequest kind payload
      → Waits inbox w
      → let bytes = request_frame kind payload in
        let t = (world_send board end (suc patience) (suc (suc rounds)) w bytes).1 in
        let reacted = react w.firmware (request_of kind payload) in
        (t.firmware ≡ reacted.1)
        × (outbox t.wire ≡ outbox w.wire ++ frames reacted.0)
        × Waits inbox t
  sends kind payload w request (empty, sound) =
      let bytes = request_frame kind payload in
      let (put, kept) = joined.delivers bytes w.wire in
      let (r, left, wrote) =
        turn-react board inbox outbox wired room patience rounds w.firmware kind payload
          (end.deliver bytes w.wire) [] (ready w.firmware sound) request
          (put ∙ ap (λ (xs : List ℕ). xs ++ bytes) empty ∙ sym (append-nil bytes)) in
      let stepped = ap (λ o. moved board end (suc patience) (suc (suc rounds)) o w.firmware) r in
      (
        stepped,
        wrote ∙ ap (λ xs. xs ++ frames (react w.firmware (request_of kind payload)).0) kept,
        (
          left,
          subst IsSound (sym stepped) (react-IsSound w.firmware (request_of kind payload) sound),
        ),
      )

  -- On a wire that loses nothing the driver and the firmware are linked: whatever request the
  -- driver may send, the firmware's code answers it as its table says, and the driver gets the
  -- bytes of the answers.
  pub world_host-IsLinked :
      IsLinked
        (world_host board end (suc patience) (suc (suc rounds)) stack)
        World.firmware
        (λ w. outbox w.wire)
        (Waits inbox)
  unfolding device_send device_recv
  world_host-IsLinked = record {
    sends = λ kind payload w request waits.
        let (moves, writes, waits') = sends kind payload w request waits in
        (refl, moves, writes, waits');
    receives = λ timeout b rest w there (empty, sound).
        let (e, i, o) = joined.collects b rest w.wire there in
        (
          ap (got board end (suc patience) (suc (suc rounds))) e,
          ap (got_bytes board end (suc patience) (suc (suc rounds))) e,
          refl,
          o,
          (i ∙ empty, sound),
        );
    silent = λ timeout w there (empty, sound).
        let (e, i, o) = joined.nothing w.wire there in
        (
          ap (got board end (suc patience) (suc (suc rounds))) e,
          ap (got_bytes board end (suc patience) (suc (suc rounds))) e,
          refl,
          o,
          (i ∙ empty, sound),
        );
    random = λ w (empty, sound). let (i, o) = joined.apart w.wire in (refl, o, (i ∙ empty, sound));
  }
