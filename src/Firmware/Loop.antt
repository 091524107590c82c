-- ===== src/Firmware/Loop.antt =====
-- ArduinoCardEmu/main_loop.cpp, with the ATR of smart_card.cpp. The operations of SmartCard and of
-- its DataBuffers have empty bodies, so that no state stands behind them.
use open_pgpcard_emu.Base.{
  ℕ, zero, suc, ◌-◌, ◌*◌, ◌%◌, ◌^◌, bit_and, bit_or, Bool, true, false, List, [], ◌∷◌, Option, none,
  some, ltb, ◌==◌, if◌then◌else◌, get_or, take, drop,
}
use open_pgpcard_emu.Base.Run.{Run, ok, err, ◌>>=◌, ◌>>◌, pure}
use open_pgpcard_emu.Firmware.Board.{Board, Stuck, no_fuel}
use open_pgpcard_emu.Firmware.Comm.{
  ReqType, invalid, card_status, card_send, card_commit, card_read, card_read_complete,
  resync_complete, resync, AnsType, card_absent, card_present, card_eod, ok_answer, resync_answer,
  Request, receive_request, send_answer, cmd_max_plsz,
}

abbrev pub atr : List ℕ
atr =
    0x3B ∷ 0xDA ∷ 0x18 ∷ 0xFF ∷ 0x81 ∷ 0xB1 ∷ 0xFE ∷ 0x75 ∷ 0x1F ∷ 0x03 ∷ 0x00 ∷ 0x31 ∷ 0xF5 ∷ 0x73
    ∷ 0xC0 ∷ 0x01 ∷ 0x60 ∷ 0x00 ∷ 0x90 ∷ 0x00 ∷ 0x1C ∷ []

abbrev pub atr_len : ℕ
atr_len = 21

-- The globals `status` and `writePending`.
pub record Globals : Type 0 where
  pub status : ℕ
  pub write_pending : ℕ

unfoldable pub is_card_present : Globals → Bool
is_card_present g = bit_and g.status 1 == 1

unfoldable pub set_card_status : Bool → Globals → Globals
set_card_status true g = record g { status = bit_or g.status 1 }
set_card_status false g = record g { status = bit_and g.status 0xFE }

module _ {S : Type 0} (board : Board S) (patience rounds : ℕ) where
  unfoldable pub send_resync : Run S Stuck (Unit {0})
  send_resync = send_answer board patience resync_answer [] 0 >>= λ sent. pure tt

  -- `send_resync(); resyncState = …; continue;`
  unfoldable pub refuse : ℕ → Run S Stuck (Option ℕ)
  unfolding send_resync
  refuse state = send_resync >> pure (some state)

  -- The answer to ResyncComplete in state 1, and whether it was sent.
  unfoldable pub complete : Bool → Run S Stuck (Option ℕ)
  unfolding refuse
  complete true = pure none
  complete false = refuse 0

  -- The answer to the control sequence, and whether it was sent.
  unfoldable pub armed : Bool → ℕ → Run S Stuck (Option ℕ)
  unfolding refuse
  armed true state = pure (some 1)
  armed false state = refuse state

  -- `if (resyncState == 1) resyncState = 0`
  unfoldable pub cleared : ℕ → ℕ
  cleared state = if state == 1 then 0 else state

  -- One request of the loop of `resync`, in the state `resyncState`: the new state, or none for the
  -- end of the loop.
  unfoldable pub resync_handle : ℕ → Request → ReqType → Run S Stuck (Option ℕ)
  unfolding refuse complete armed cleared
  resync_handle state request invalid = refuse 0
  resync_handle state request resync =
      send_answer board patience resync_answer request.payload request.pl_len >>= λ sent.
      armed sent (cleared state)
  resync_handle state request resync_complete = elim (state == 1) [
    | true ↦ send_answer board patience ok_answer [] 0 >>= complete
    | false ↦ refuse (cleared state)
  ]
  resync_handle state request _ = refuse (cleared state)

  unfoldable pub resync_round : ℕ → Run S Stuck (Option ℕ)
  unfolding resync_handle
  resync_round state = receive_request board patience rounds >>= λ request.
      resync_handle state request request.req_type

  -- `while (true)`
  unfoldable pub resync_loop : ℕ → ℕ → Run S Stuck (Unit {0})
  unfolding resync_round
  resync_loop zero state s = (err no_fuel, s)
  resync_loop (suc fuel) state s =
      (resync_round state >>= λ next. elim next [
        | none ↦ pure tt
        | some state' ↦ resync_loop fuel state'
      ])
        s

  -- The function `resync`; `setup` calls it after the settings of the port.
  unfoldable pub run_resync : ℕ → Run S Stuck (Unit {0})
  unfolding send_resync resync_loop
  run_resync fuel = send_resync >> resync_loop fuel 0

  -- The parts of the ATR, of which `rem` bytes are left.
  unfoldable pub send_atr : ℕ → ℕ → Run S Stuck Bool
  send_atr zero rem s = elim (rem == 0) [ true ↦ (ok true, s) | false ↦ (err no_fuel, s) ]
  send_atr (suc fuel) rem s = elim (rem == 0) [
    | true ↦ (ok true, s)
    | false ↦
        let part_len = if ltb cmd_max_plsz rem then cmd_max_plsz else rem in
        (send_answer board patience card_present (take part_len (drop (atr_len - rem) atr)) part_len
            >>= λ sent. elim sent [ true ↦ send_atr fuel (rem - part_len) | false ↦ pure false ])
          s
  ]

  -- Each part has at least one byte.
  unfoldable pub card_reset : Run S Stuck Bool
  unfolding send_atr
  card_reset = send_answer board patience card_present (atr_len ∷ []) 1 >>= λ sent. elim sent [
    | true ↦ send_atr atr_len atr_len
    | false ↦ pure false
  ]

  -- `result=commHelper.SendAnswer(…)` with no payload.
  unfoldable pub reply : AnsType → Globals → Run S Stuck (Bool × Globals)
  reply ans g = send_answer board patience ans [] 0 >>= λ sent. pure (sent, g)

  unfoldable pub after_reset : Bool → Globals → Bool × Globals
  unfolding set_card_status
  after_reset true g = (true, set_card_status true g)
  after_reset false g = (false, g)

  -- Status query, deactivation or reset.
  unfoldable pub handle_status : Request → Globals → Run S Stuck (Bool × Globals)
  unfolding reply after_reset card_reset
  handle_status request g = elim (request.pl_len == 0) [
    | true ↦ reply (if is_card_present g then card_present else card_absent) g
    | false ↦ elim (get_or request.payload 0 0 == 0) [
      | true ↦ reply card_absent (set_card_status false g)
      | false ↦ card_reset >>= λ sent. pure (after_reset sent g)
    ]
  ]

  -- The first send command gives the number of bytes to come.
  unfoldable pub handle_send : Request → Globals → Run S Stuck (Bool × Globals)
  unfolding reply
  handle_send request g = elim (ltb 0 g.write_pending) [
    | true ↦ reply ok_answer g
    | false ↦ elim (request.pl_len == 2) [
      | true ↦ reply ok_answer (record g {
        write_pending =
            bit_or (get_or request.payload 0 0) (get_or request.payload 1 0 * 256) % 2 ^ 16;
      })
      | false ↦ pure (false, g)
    ]
  ]

  unfoldable pub handle_commit : Globals → Run S Stuck (Bool × Globals)
  unfolding reply
  handle_commit g = elim (ltb 0 g.write_pending) [
    | true ↦ pure (false, g)
    | false ↦ reply ok_answer g
  ]

  -- The `switch` of `loop`: the value of `result`, and the globals.
  unfoldable pub dispatch : Request → ReqType → Globals → Run S Stuck (Bool × Globals)
  unfolding handle_status handle_send handle_commit
  dispatch request card_status g = handle_status request g
  dispatch request card_commit g = handle_commit g
  dispatch request card_read_complete g = reply ok_answer g
  dispatch request card_read g = reply card_eod g
  dispatch request card_send g = handle_send request g
  dispatch request _ g = pure (false, g)

  unfoldable pub loop_round : Globals → Run S Stuck (Bool × Globals)
  unfolding dispatch
  loop_round g =
      receive_request board patience rounds >>= λ request. dispatch request request.req_type g

  -- `loop`, with fuel for the rounds of a resynchronisation.
  unfoldable pub loop : ℕ → Globals → Run S Stuck Globals
  unfolding loop_round run_resync
  loop fuel g = loop_round g >>= λ out. elim out.0 [
    | true ↦ pure out.1
    | false ↦ run_resync fuel >> pure (record out.1 { write_pending = 0 })
  ]
