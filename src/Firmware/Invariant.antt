-- ===== src/Firmware/Invariant.antt =====
-- What holds of the globals of ArduinoCardEmu/main_loop.cpp whenever it waits for a request.
use open_pgpcard_emu.Base.{
  ℕ, zero, suc, ◌≤◌, ◌<◌, ◌≡◌, refl, Bool, true, false, List, Option, none, some, arith, ltb, ◌==◌,
  get_or,
}
use open_pgpcard_emu.Firmware.Comm.{
  ReqType, invalid, card_status, card_send, card_commit, card_read, card_read_complete,
  resync_complete, resync, Request,
}
use open_pgpcard_emu.Firmware.Loop.{Globals, set_card_status}
use open_pgpcard_emu.Firmware.React.{
  Mode, in_loop, in_resync, Node, Answer, serve, status_answer, send_served, commit_served,
  after_serve, resync_react, react,
}

-- `status` is a bit and `writePending` an uint16_t.
abbrev pub Fits : Globals → Type 0
Fits g = (g.status ≤ 1) × (g.write_pending < 65536)

-- `resyncState` is 0 or 1, and during a resynchronisation no bytes are announced.
abbrev pub InMode : Mode → Globals → Type 0
InMode in_loop g = Unit
InMode (in_resync state) g = (state ≤ 1) × (g.write_pending ≡ 0)

abbrev pub IsSound : Node → Type 0
IsSound node = Fits node.globals × InMode node.mode node.globals

set_card_status-bit :
    (present : Bool) (st wp : ℕ)
    → st ≤ 1
    → (set_card_status present (record { status = st; write_pending = wp })).status ≤ 1
unfolding set_card_status
set_card_status-bit true zero wp h = omega arith
set_card_status-bit true (suc zero) wp h = omega arith
set_card_status-bit false zero wp h = omega arith
set_card_status-bit false (suc zero) wp h = omega arith
set_card_status-bit present (suc (suc n)) wp h = absurd (omega arith)

set_card_status-Fits : (present : Bool) (g : Globals) → Fits g → Fits (set_card_status present g)
unfolding set_card_status
set_card_status-Fits true g (bit, small) =
    (set_card_status-bit true g.status g.write_pending bit, small)
set_card_status-Fits false g (bit, small) =
    (set_card_status-bit false g.status g.write_pending bit, small)

abbrev Serves : Option (List Answer × Globals) → Type 0
Serves none = Unit
Serves (some (answers, g)) = Fits g

status-Fits : (query off : Bool) (g : Globals) → Fits g → Fits (status_answer query off g).1
status-Fits true off g fits = fits
status-Fits false true g fits = set_card_status-Fits false g fits
status-Fits false false g fits = set_card_status-Fits true g fits

send-Fits :
    (more two : Bool) (request : Request) (g : Globals)
    → Fits g
    → (request.pl_len == 2) ≡ two
    → Serves (send_served more request g)
send-Fits true two request g fits e = fits
send-Fits false true request g (bit, small) e = rw e (bit, omega arith)
send-Fits false false request g fits e = rw e tt

commit-Fits : (more : Bool) (g : Globals) → Fits g → Serves (commit_served more g)
commit-Fits true g fits = tt
commit-Fits false g fits = fits

serve-Fits :
    (request : Request) (kind : ReqType) (g : Globals) → Fits g → Serves (serve request kind g)
serve-Fits request card_status g fits =
    status-Fits (request.pl_len == 0) (get_or request.payload 0 0 == 0) g fits
serve-Fits request card_send g fits = send-Fits (ltb 0 g.write_pending) _ request g fits refl
serve-Fits request card_commit g fits = commit-Fits (ltb 0 g.write_pending) g fits
serve-Fits request card_read g fits = fits
serve-Fits request card_read_complete g fits = fits
serve-Fits request invalid g fits = tt
serve-Fits request resync g fits = tt
serve-Fits request resync_complete g fits = tt

after_serve-IsSound :
    (served : Option (List Answer × Globals)) (g : Globals)
    → Fits g
    → Serves served
    → IsSound (after_serve served g).1
after_serve-IsSound none g (bit, small) h = ((bit, omega arith), (omega arith, refl))
after_serve-IsSound (some (answers, g')) g fits h = (h, tt)

resync_react-InMode :
    (armed : Bool) (request : Request) (kind : ReqType) (g : Globals)
    → g.write_pending ≡ 0
    → InMode (resync_react armed request kind).1 g
resync_react-InMode armed request resync g h = (omega arith, h)
resync_react-InMode true request resync_complete g h = tt
resync_react-InMode false request resync_complete g h = (omega arith, h)
resync_react-InMode armed request invalid g h = (omega arith, h)
resync_react-InMode armed request card_status g h = (omega arith, h)
resync_react-InMode armed request card_send g h = (omega arith, h)
resync_react-InMode armed request card_commit g h = (omega arith, h)
resync_react-InMode armed request card_read g h = (omega arith, h)
resync_react-InMode armed request card_read_complete g h = (omega arith, h)

pub react-IsSound :
    (node : Node) (request : Request) → IsSound node → IsSound (react node request).1
unfolding react
react-IsSound node request (fits, at) = go node.mode at
  where
    go :
        (mode : Mode)
        → InMode mode node.globals
        → IsSound (react (record { mode = mode; globals = node.globals }) request).1
    go in_loop at' =
        after_serve-IsSound (serve request request.req_type node.globals) node.globals fits
          (serve-Fits request request.req_type node.globals fits)
    go (in_resync state) (bit, none_announced) = (
      fits,
      resync_react-InMode (state == 1) request request.req_type node.globals none_announced,
    )
