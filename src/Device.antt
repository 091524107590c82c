-- ===== src/Device.antt =====
-- The device layer of OpenCTDriver/src/ifd/device.c, as far as the driver calls it. What a device
-- does is behind a table of functions; an entry may be missing. `S` is the state of the outside:
-- the line, the card emulator behind it, the clock.
use open_pgpcard_emu.Base.{ℕ, List, [], Option, none, some, ℤ, negsuc}

-- `send` gets the bytes and gives the result. `recv` gets the length and the timeout in
-- milliseconds, and gives the result with the bytes that it stored in the caller's buffer, from
-- its start on.
pub record DeviceOps (S : Type 0) : Type 0 where
  pub send : Option (S → List ℕ → ℤ × S)
  pub recv : Option (S → ℕ → ℕ → ℤ × List ℕ × S)

abbrev pub error_generic : ℤ
error_generic = negsuc 0

abbrev pub error_timeout : ℤ
error_timeout = negsuc 1

abbrev pub error_invalid_slot : ℤ
error_invalid_slot = negsuc 2

abbrev pub error_not_supported : ℤ
error_not_supported = negsuc 3

module _ {S : Type 0} where
  unfoldable pub device_send : DeviceOps S → S → List ℕ → ℤ × S
  device_send ops s bytes = elim ops.send [ none ↦ (error_not_supported, s) | some f ↦ f s bytes ]

  -- The driver passes timeouts that are not negative, so `dev->timeout` is not read.
  unfoldable pub device_recv : DeviceOps S → S → ℕ → ℕ → ℤ × List ℕ × S
  device_recv ops s len timeout = elim ops.recv [
    | none ↦ (error_not_supported, [], s)
    | some f ↦ f s len timeout
  ]
