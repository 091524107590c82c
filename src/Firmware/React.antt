-- ===== src/Firmware/React.antt =====
-- What the firmware answers to a request, as a table with no messages, bytes or waiting, and the
-- firmware as a machine that takes one request for each turn: ArduinoCardEmu/main_loop.cpp stands
-- either in `loop` or in the loop of `resync`.
use open_pgpcard_emu.Base.{
  ℕ, ◌*◌, ◌%◌, ◌^◌, bit_or, Bool, true, false, List, [], ◌∷◌, ◌++◌, Option, none, some, ltb, ◌==◌,
  if◌then◌else◌, get_or,
}
use open_pgpcard_emu.Base.Run.{Run, ◌>>=◌, pure}
use open_pgpcard_emu.Firmware.Answer.{answer_frame}
use open_pgpcard_emu.Firmware.Board.{Board, Stuck}
use open_pgpcard_emu.Firmware.Comm.{
  ReqType, invalid, card_status, card_send, card_commit, card_read, card_read_complete,
  resync_complete, resync, AnsType, card_absent, card_present, card_eod, ok_answer, resync_answer,
  Request,
}
use open_pgpcard_emu.Firmware.Loop.{
  Globals, is_card_present, set_card_status, loop_round, resync_round, send_resync,
}

-- In `loop`, or in `resync` with the value of `resyncState`.
pub data Mode : Type 0 where
  in_loop : Mode
  in_resync : ℕ → Mode

pub record Node : Type 0 where
  pub mode : Mode
  pub globals : Globals

pub record Answer : Type 0 where
  pub kind : AnsType
  pub payload : List ℕ

abbrev pub bare : AnsType → List Answer
bare ans = record { kind = ans; payload = [] } ∷ []

-- The length of the ATR, and its bytes in two parts.
abbrev pub atr_answers : List Answer
atr_answers =
    record { kind = card_present; payload = 21 ∷ [] }
    ∷ record {
      kind = card_present;
      payload =
          0x3B ∷ 0xDA ∷ 0x18 ∷ 0xFF ∷ 0x81 ∷ 0xB1 ∷ 0xFE ∷ 0x75 ∷ 0x1F ∷ 0x03 ∷ 0x00 ∷ 0x31 ∷ 0xF5
          ∷ 0x73 ∷ [];
    }
    ∷ record { kind = card_present; payload = 0xC0 ∷ 0x01 ∷ 0x60 ∷ 0x00 ∷ 0x90 ∷ 0x00 ∷ 0x1C ∷ [] }
    ∷ []

-- In `loop`: the answers with the new globals, or none for a request that is refused.
abbrev pub status_answer : Bool → Bool → Globals → List Answer × Globals
status_answer true off g = (bare (if is_card_present g then card_present else card_absent), g)
status_answer false true g = (bare card_absent, set_card_status false g)
status_answer false false g = (atr_answers, set_card_status true g)

abbrev pub announced : List ℕ → ℕ
announced payload = bit_or (get_or payload 0 0) (get_or payload 1 0 * 256) % 2 ^ 16

abbrev pub send_served : Bool → Request → Globals → Option (List Answer × Globals)
send_served true request g = some (bare ok_answer, g)
send_served false request g =
    if request.pl_len == 2
    then some (bare ok_answer, record g { write_pending = announced request.payload })
    else none

abbrev pub commit_served : Bool → Globals → Option (List Answer × Globals)
commit_served true g = none
commit_served false g = some (bare ok_answer, g)

abbrev pub serve : Request → ReqType → Globals → Option (List Answer × Globals)
serve request card_status g =
    some (status_answer (request.pl_len == 0) (get_or request.payload 0 0 == 0) g)
serve request card_send g = send_served (ltb 0 g.write_pending) request g
serve request card_commit g = commit_served (ltb 0 g.write_pending) g
serve request card_read g = some (bare card_eod, g)
serve request card_read_complete g = some (bare ok_answer, g)
serve request invalid g = none
serve request resync g = none
serve request resync_complete g = none

-- A refused request starts a resynchronisation, which forgets the announced bytes.
abbrev pub after_serve : Option (List Answer × Globals) → Globals → List Answer × Node
after_serve (some (answers, g')) g = (answers, record { mode = in_loop; globals = g' })
after_serve none g =
    (bare resync_answer, record { mode = in_resync 0; globals = record g { write_pending = 0 } })

-- In `resync`: the answer and the new mode.
abbrev pub resync_react : Bool → Request → ReqType → List Answer × Mode
resync_react armed request resync =
    (record { kind = resync_answer; payload = request.payload } ∷ [], in_resync 1)
resync_react true request resync_complete = (bare ok_answer, in_loop)
resync_react armed request _ = (bare resync_answer, in_resync 0)

abbrev pub react_in : Mode → Globals → Request → List Answer × Node
react_in in_loop g request = after_serve (serve request request.req_type g) g
react_in (in_resync state) g request =
    let (answers, mode') = resync_react (state == 1) request request.req_type in
    (answers, record { mode = mode'; globals = g })

unfoldable pub react : Node → Request → List Answer × Node
react node request = react_in node.mode node.globals request

-- The answers as bytes on the line.
abbrev pub frames : List Answer → List ℕ
frames [] = []
frames (a ∷ answers) = answer_frame a.kind a.payload ++ frames answers

module _ {S : Type 0} (board : Board S) (patience rounds : ℕ) where
  -- `if (!result) { writePending = 0; resync(); }`, up to the loop of `resync`
  unfoldable pub after_loop_round : Bool → Globals → Run S Stuck Node
  after_loop_round true g = pure (record { mode = in_loop; globals = g })
  after_loop_round false g = send_resync board patience rounds >>= λ _.
      pure (record { mode = in_resync 0; globals = record g { write_pending = 0 } })

  unfoldable pub after_resync_round : Option ℕ → Globals → Node
  after_resync_round none g = record { mode = in_loop; globals = g }
  after_resync_round (some state) g = record { mode = in_resync state; globals = g }

  -- One request, in either loop.
  unfoldable pub turn_in : Mode → Globals → Run S Stuck Node
  unfolding after_loop_round after_resync_round
  turn_in in_loop g = loop_round board patience rounds g >>= λ out. after_loop_round out.0 out.1
  turn_in (in_resync state) g =
      resync_round board patience rounds state >>= λ next. pure (after_resync_round next g)

  unfoldable pub turn : Node → Run S Stuck Node
  unfolding turn_in
  turn node = turn_in node.mode node.globals
