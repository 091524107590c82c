-- ===== src/Tlv.antt =====
-- The tag-length-value coding of OpenCTDriver/src/ct/tlv.c.
pub mod Parser
pub mod Builder
pub mod Ints
pub mod Items
pub mod Built
pub mod RoundTrip
