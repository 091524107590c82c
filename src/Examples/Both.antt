-- ===== src/Examples/Both.antt =====
-- The driver of OpenCTDriver/src/ifd/ifd-cardemu.c and the firmware of ArduinoCardEmu/ on the wire
-- of two queues.
use open_pgpcard_emu.Base.{
  ℕ, ◌≡◌, refl, List, [], ◌∷◌, arith, true, false, pos, some, take, min, if◌then◌else◌,
}
use open_pgpcard_emu.Cardemu.Reset.{returned, card_reset}
use open_pgpcard_emu.Cardemu.Resync.{resync}
use open_pgpcard_emu.Cardemu.Status.{card_status, deactivate, ifd_card_present}
use open_pgpcard_emu.Firmware.Loop.{Globals, atr, is_card_present, set_card_status}
use open_pgpcard_emu.Firmware.React.{in_loop, Node}
use open_pgpcard_emu.Cardemu.Transmit.{send}
use open_pgpcard_emu.Together.Resync.{forget}
use open_pgpcard_emu.Together.Complete.{
  Rests, resync-driver, card_status-driver, deactivate-driver, card_reset-driver, send-driver,
}
use open_pgpcard_emu.Together.World.{World, Waits}
use open_pgpcard_emu.Examples.Devices.{blank_stack}
use open_pgpcard_emu.Examples.Wires.{
  Wire, wire_board, wire_end, wire_board-IsWired, wire_end-IsJoined, wire_host,
}

abbrev with_card : Globals
with_card = record { status = 1; write_pending = 5 }

abbrev idle : Node
idle = record { mode = in_loop; globals = with_card }

-- The firmware waits, and three bytes of rubbish are on the line.
abbrev noisy : World Wire
noisy = record { wire = record { inbox = []; outbox = 1 ∷ 2 ∷ 3 ∷ []; clock = 0 }; firmware = idle }

abbrev quiet : World Wire
quiet = record { wire = record { inbox = []; outbox = []; clock = 0 }; firmware = idle }

abbrev none_announced : Globals
none_announced = record { status = 1; write_pending = 0 }

abbrev fresh : World Wire
fresh = record {
  wire = record { inbox = []; outbox = []; clock = 0 };
  firmware = record { mode = in_loop; globals = none_announced };
}

noisy-Waits : Waits Wire.inbox noisy
noisy-Waits = (refl, ((omega arith, omega arith), tt))

quiet-Waits : Waits Wire.inbox quiet
quiet-Waits = (refl, ((omega arith, omega arith), tt))

abbrev At : Globals → World Wire → Type 0
At =
    Rests wire_board wire_end 0 0 Wire.inbox Wire.outbox wire_board-IsWired wire_end-IsJoined refl
      blank_stack refl

resync-driver_example :
    ((resync wire_host noisy).0 ≡ true) × At (forget in_loop with_card) (resync wire_host noisy).1
resync-driver_example =
    resync-driver wire_board wire_end 0 0 Wire.inbox Wire.outbox wire_board-IsWired
      wire_end-IsJoined refl blank_stack refl noisy noisy-Waits (omega arith)

card_status-driver_example :
    ((card_status wire_host 0 quiet).0 ≡ record {
      code = pos 0;
      status = some (if is_card_present with_card then ifd_card_present else 0);
    })
    × At with_card (card_status wire_host 0 quiet).1
card_status-driver_example =
    card_status-driver wire_board wire_end 0 0 Wire.inbox Wire.outbox wire_board-IsWired
      wire_end-IsJoined refl blank_stack refl with_card quiet (refl, refl, quiet-Waits)

deactivate-driver_example :
    ((deactivate wire_host quiet).0 ≡ pos 0)
    × At (set_card_status false with_card) (deactivate wire_host quiet).1
deactivate-driver_example =
    deactivate-driver wire_board wire_end 0 0 Wire.inbox Wire.outbox wire_board-IsWired
      wire_end-IsJoined refl blank_stack refl with_card quiet (refl, refl, quiet-Waits)

card_reset-driver_example :
    ((card_reset wire_host 3 0 33 quiet).0 ≡ returned (pos (min 21 33)) (take (min 21 33) atr))
    × At (set_card_status true with_card) (card_reset wire_host 3 0 33 quiet).1
card_reset-driver_example =
    card_reset-driver wire_board wire_end 0 0 Wire.inbox Wire.outbox wire_board-IsWired
      wire_end-IsJoined refl blank_stack refl 0 33 with_card quiet (refl, refl, quiet-Waits)

-- GET CHALLENGE
abbrev command : List ℕ
command = 0x00 ∷ 0x84 ∷ 0x00 ∷ 0x00 ∷ 0x08 ∷ []

send-driver_example :
    ((send wire_host command fresh).0 ≡ returned (pos 0) [])
    × At none_announced (send wire_host command fresh).1
send-driver_example =
    send-driver wire_board wire_end 0 0 Wire.inbox Wire.outbox wire_board-IsWired wire_end-IsJoined
      refl blank_stack refl command 1 fresh (omega arith) (omega arith)
      (refl, refl, (refl, ((omega arith, omega arith), tt)))
