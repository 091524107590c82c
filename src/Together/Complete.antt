-- ===== src/Together/Complete.antt =====
-- The entries of OpenCTDriver/src/ifd/ifd-cardemu.c run against the code of ArduinoCardEmu/, on any
-- wire that loses nothing.
use open_pgpcard_emu.Base.{
  ℕ, suc, ◌≤◌, ◌<◌, ◌≡◌, refl, List, [], true, false, some, pos, min, take, length, if◌then◌else◌,
}
use open_pgpcard_emu.Cardemu.Session.{Host}
use open_pgpcard_emu.Cardemu.Resync.{resync}
use open_pgpcard_emu.Cardemu.Status.{card_status, deactivate, ifd_card_present}
use open_pgpcard_emu.Cardemu.Reset.{card_reset, returned}
use open_pgpcard_emu.Cardemu.Transmit.{send}
use open_pgpcard_emu.Firmware.Board.{Board}
use open_pgpcard_emu.Firmware.Loop.{Globals, is_card_present, set_card_status, atr}
use open_pgpcard_emu.Firmware.React.{in_loop}
use open_pgpcard_emu.Firmware.Wire.{IsWired}
use open_pgpcard_emu.Together.Link.{IsLinked}
use open_pgpcard_emu.Together.World.{
  HostEnd, IsJoined, World, Waits, world_host, world_host-IsLinked,
}
use open_pgpcard_emu.Together.Resync.{forget, resync-succeeds}
use open_pgpcard_emu.Together.Status.{card_status-firmware, deactivate-firmware}
use open_pgpcard_emu.Together.Reset.{card_reset-firmware}
use open_pgpcard_emu.Together.Send.{send-firmware}

module _ {S : Type 0} (board : Board S) (end : HostEnd S) (patience rounds : ℕ)
    (inbox outbox : S → List ℕ) (wired : IsWired board inbox outbox)
    (joined : IsJoined end inbox outbox) (room : length board.stack ≡ 16) (stack : List ℕ)
    (stack_room : length stack ≡ 16) where
  abbrev pub driver : Host (World S)
  driver = world_host board end (suc patience) (suc (suc rounds)) stack

  -- The firmware in `loop` with these globals, waiting, and nothing on the wire.
  abbrev pub Rests : Globals → World S → Type 0
  Rests g w =
      (w.firmware ≡ record { mode = in_loop; globals = g }) × (outbox w.wire ≡ []) × Waits inbox w

  driver-IsLinked : IsLinked driver World.firmware (λ v. outbox v.wire) (Waits inbox)
  driver-IsLinked =
      world_host-IsLinked board end patience rounds inbox outbox wired joined room stack

  -- Wherever the firmware waits for a request, with fewer than 4093 bytes on the wire that the driver
  -- has not read, `resync` succeeds at its first try. It leaves the firmware in `loop`, nothing on
  -- the wire, and the globals as they were, but for the announced bytes if the firmware was in `loop`
  -- before.
  pub resync-driver :
      (w : World S)
      → Waits inbox w
      → length (outbox w.wire) < 4093
      → ((resync driver w).0 ≡ true)
        × Rests (forget w.firmware.mode w.firmware.globals) (resync driver w).1
  resync-driver w waits few =
      resync-succeeds driver World.firmware (λ v. outbox v.wire) (Waits inbox) driver-IsLinked
        stack_room w.firmware.mode w.firmware.globals (outbox w.wire) w (refl, refl, waits) few

  -- With the firmware in `loop` and nothing on the wire, `cardemu_card_status` for the slot 0 gives
  -- the bit of the firmware's `status`, and changes nothing there.
  pub card_status-driver :
      (g : Globals) (w : World S)
      → Rests g w
      → ((card_status driver 0 w).0 ≡ record {
        code = pos 0;
        status = some (if is_card_present g then ifd_card_present else 0);
      })
        × Rests g (card_status driver 0 w).1
  card_status-driver g w rests =
      card_status-firmware driver World.firmware (λ v. outbox v.wire) (Waits inbox) driver-IsLinked
        stack_room g w rests

  -- With the firmware in `loop` and nothing on the wire, `cardemu_deactivate` returns 0 and clears
  -- the bit of the firmware's `status` that says that the card is there.
  pub deactivate-driver :
      (g : Globals) (w : World S)
      → Rests g w
      → ((deactivate driver w).0 ≡ pos 0) × Rests (set_card_status false g) (deactivate driver w).1
  deactivate-driver g w rests =
      deactivate-firmware driver World.firmware (λ v. outbox v.wire) (Waits inbox) driver-IsLinked
        stack_room g w rests

  -- With the firmware in `loop` and nothing on the wire, `cardemu_card_reset` for the slot 0 stores
  -- as much of the firmware's 21 bytes of ATR as the caller has room for and returns their number,
  -- and the firmware's `status` then says that the card is there.
  pub card_reset-driver :
      (fuel size : ℕ) (g : Globals) (w : World S)
      → Rests g w
      → ((card_reset driver (suc (suc (suc fuel))) 0 size w).0
          ≡ returned (pos (min 21 size)) (take (min 21 size) atr))
        × Rests (set_card_status true g) (card_reset driver (suc (suc (suc fuel))) 0 size w).1
  card_reset-driver fuel size g w rests =
      card_reset-firmware driver World.firmware (λ v. outbox v.wire) (Waits inbox) driver-IsLinked
        stack_room fuel size g w rests

  -- With the firmware in `loop`, no bytes announced and nothing on the wire, `cardemu_send` of an
  -- APDU of 1 to 65535 bytes returns 0, success, though the firmware has kept none of its bytes and
  -- is as it was before.
  pub send-driver :
      (bytes : List ℕ) (st : ℕ) (w : World S)
      → 1 ≤ length bytes
      → length bytes ≤ 65535
      → Rests (record { status = st; write_pending = 0 }) w
      → ((send driver bytes w).0 ≡ returned (pos 0) [])
        × Rests (record { status = st; write_pending = 0 }) (send driver bytes w).1
  send-driver bytes st w some_byte few rests =
      send-firmware driver World.firmware (λ v. outbox v.wire) (Waits inbox) driver-IsLinked
        stack_room bytes st w some_byte few rests
