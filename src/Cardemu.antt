-- ===== src/Cardemu.antt =====
-- The reader driver OpenCTDriver/src/ifd/ifd-cardemu.c: its resynchronisation and its entries
-- `card_status`, `deactivate`, `card_reset`, `activate`, `send` and `recv`.
pub mod Session
pub mod Resync
pub mod Retry
pub mod Status
pub mod Reset
pub mod Transmit
pub mod NoData
pub mod DeadLine
pub mod Rules
pub mod Codes
pub mod SendTotal
