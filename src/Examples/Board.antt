-- ===== src/Examples/Board.antt =====
-- The firmware of ArduinoCardEmu/ on the wire of two queues.
use open_pgpcard_emu.Base.{ℕ, ◌≡◌, refl, List, [], ◌∷◌, ◌++◌, arith}
use open_pgpcard_emu.Crc8
use open_pgpcard_emu.Firmware.Crc8 as FirmwareCrc
use open_pgpcard_emu.Firmware.Comm.{
  card_status, receive_request, receive_body, request_fits, req_code,
}
use open_pgpcard_emu.Firmware.Loop.{Globals}
use open_pgpcard_emu.Firmware.React.{Node, in_loop, react, frames, turn}
use open_pgpcard_emu.Firmware.Receive.{request_frame, IsRequest, request_of, receive_request-frame}
use open_pgpcard_emu.Firmware.Refines.{turn-react}
use open_pgpcard_emu.Firmware.Timeouts.{IsDone, receive_body-IsDone}
use open_pgpcard_emu.Firmware.Wire.{Does}
use open_pgpcard_emu.Examples.Devices.{blank_stack}
use open_pgpcard_emu.Examples.Wires.{Wire, wire_board, wire_board-IsWired, wire_board-IsTimed}

-- The reset of the card: a status request with the payload 1.
abbrev reset_bytes : List ℕ
reset_bytes = request_frame card_status (1 ∷ [])

reset-IsRequest : IsRequest card_status (1 ∷ [])
unfolding request_fits req_code
reset-IsRequest = (omega arith, refl)

abbrev waiting : Wire
waiting = record { inbox = reset_bytes ++ 0xFF ∷ []; outbox = []; clock = 0 }

abbrev half : Wire
half = record { inbox = 1 ∷ []; outbox = []; clock = 0 }

abbrev no_card : Globals
no_card = record { status = 0; write_pending = 5 }

abbrev idle : Node
idle = record { mode = in_loop; globals = no_card }

crc8-crc8_example : FirmwareCrc.crc8 (0xE1 ∷ []) ≡ Crc8.crc8 (0xE1 ∷ [])
crc8-crc8_example = FirmwareCrc.crc8-crc8 (0xE1 ∷ [])

receive_request-frame_example :
    Does Wire.inbox Wire.outbox
      (receive_request wire_board 1 2)
      waiting
      (request_of card_status (1 ∷ []))
      (0xFF ∷ [])
      []
receive_request-frame_example =
    receive_request-frame wire_board Wire.inbox Wire.outbox wire_board-IsWired 0 0 card_status
      (1 ∷ []) waiting (0xFF ∷ []) reset-IsRequest refl refl

receive_body-IsDone_example : IsDone (receive_body wire_board 2 0x20 2 blank_stack half).0
receive_body-IsDone_example =
    receive_body-IsDone wire_board Wire.clock wire_board-IsTimed 0 0x20 2 blank_stack half
      (omega arith)

turn-react_example :
    Does Wire.inbox Wire.outbox
      (turn wire_board 1 2 idle)
      waiting
      (react idle (request_of card_status (1 ∷ []))).1
      (0xFF ∷ [])
      (frames (react idle (request_of card_status (1 ∷ []))).0)
turn-react_example =
    turn-react wire_board Wire.inbox Wire.outbox wire_board-IsWired refl 0 0 idle card_status
      (1 ∷ []) waiting (0xFF ∷ []) tt reset-IsRequest refl
