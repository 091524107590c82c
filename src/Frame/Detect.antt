-- ===== src/Frame/Detect.antt =====
-- A message that was changed on the line.
use open_pgpcard_emu.Base.{ℕ, ◌+◌, ◌<◌, ◌≡◌, ◌≢◌, List, ◌∷◌, ◌++◌, false, length, AreBytes}
use open_pgpcard_emu.Crc8.{crc8}
use open_pgpcard_emu.Crc8.Detect.{crc8-ne_of_one_byte}
use open_pgpcard_emu.Frame.{verify}
use open_pgpcard_emu.Frame.Build.{verify-exact}

-- `comm_verify` refuses a message of which one byte was changed, be it in the header or in the
-- payload, and one whose CRC byte was changed.
pub verify-refuses_change :
    (before : List ℕ) (a b c : ℕ) (after rest : List ℕ)
    → AreBytes before
    → a < 256
    → b < 256
    → AreBytes after
    → a ≢ b
    → c ≢ crc8 (before ++ a ∷ after)
    → (verify
          ((before ++ b ∷ after) ++ crc8 (before ++ a ∷ after) ∷ rest)
          (length (before ++ b ∷ after) + 1)
        ≡ false)
      × (verify ((before ++ a ∷ after) ++ c ∷ rest) (length (before ++ a ∷ after) + 1) ≡ false)
verify-refuses_change before a b c after rest hs ha hb hs' ne changed = (
  verify-exact (before ++ b ∷ after) rest (crc8 (before ++ a ∷ after))
      (crc8-ne_of_one_byte before a b after hs ha hb hs' ne),
  verify-exact (before ++ a ∷ after) rest c changed,
)
