-- ===== src/T1.antt =====
-- The block protocol T=1 of OpenCTDriver/src/ifd/proto-t1.c.
pub mod Block
pub mod Channel
pub mod Transceive
pub mod Negotiate
pub mod Bounds
pub mod Frames
pub mod Talk
pub mod Received
pub mod Handled
pub mod Sent
pub mod Heard
pub mod Ready
pub mod Round
pub mod Turns
pub mod Gives
pub mod Delivers
pub mod Kept
pub mod Safety
