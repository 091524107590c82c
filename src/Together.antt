-- ===== src/Together.antt =====
-- The driver of OpenCTDriver/src/ifd/ifd-cardemu.c and the firmware of ArduinoCardEmu/ at the two
-- ends of one line.
pub mod Link
pub mod Exchange
pub mod Steps
pub mod Echo
pub mod Resync
pub mod World
pub mod Commands
pub mod Status
pub mod Reset
pub mod Packages
pub mod Send
pub mod Complete
