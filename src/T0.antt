-- ===== src/T0.antt =====
-- The byte protocol T=0 of OpenCTDriver/src/ifd/proto-t0.c.
pub mod State
pub mod Transceive
pub mod Descends
pub mod Ends
pub mod Total
pub mod Rounds
pub mod Reads
