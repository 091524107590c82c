-- ===== src/Examples.antt =====
-- The theorems at concrete inputs: a line that holds what the emulator sent, and a line that is
-- dead.
pub mod Devices
pub mod Messages
pub mod Entries
pub mod Values
pub mod Blocks
pub mod Cards
pub mod Wires
pub mod Board
pub mod Both
pub mod Clients
