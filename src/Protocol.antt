-- ===== src/Protocol.antt =====
-- The protocols a reader speaks, and the choice among them, of OpenCTDriver/src/ifd/protocol.c.
pub mod Registry
pub mod Select
pub mod Rounds
pub mod Walk
pub mod Agrees
