-- ===== src/Firmware.antt =====
-- The firmware of ArduinoCardEmu/, which answers the driver over the serial line.
pub mod Crc8
pub mod Board
pub mod Comm
pub mod Loop
pub mod Codes
pub mod Wire
pub mod Answer
pub mod Receive
pub mod React
pub mod Implements
pub mod Refines
pub mod Turns
pub mod Timeouts
pub mod Invariant
