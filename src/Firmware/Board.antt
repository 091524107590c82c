-- ===== src/Firmware/Board.antt =====
-- What the firmware uses of Arduino: the port `Serial`, `millis()`, and the bytes that a buffer on
-- the stack holds before it is written. `S` is the state of the outside.
use open_pgpcard_emu.Base.{ℕ, List}

pub record Board (S : Type 0) : Type 0 where
  pub available : S → ℕ × S
  -- At most so many bytes; fewer after a timeout.
  pub read_bytes : ℕ → S → List ℕ × S
  pub write : ℕ → S → ℕ × S
  pub millis : S → ℕ × S
  pub stack : List ℕ

-- The loops of the firmware that wait for the port have no bound, and are counted by fuel.
pub data Stuck : Type 0 where
  no_fuel : Stuck
