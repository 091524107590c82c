-- ===== src/Examples/Devices.antt =====
-- Two devices for OpenCTDriver/src/ifd/ifd-cardemu.c to talk to, and one host for each.
use open_pgpcard_emu.Base.{ℕ, List, [], ◌∷◌, ◌≡◌, refl, true, some, ℤ, pos, negsuc, is_neg}
use open_pgpcard_emu.Device.{DeviceOps, device_send, device_recv}
use open_pgpcard_emu.Line.Receive.{Delivers}
use open_pgpcard_emu.Cardemu.Session.{Host}

abbrev give : List ℕ → ℤ × List ℕ × List ℕ
give [] = (negsuc 1, [], [])
give (b ∷ tape) = (pos 1, b ∷ [], tape)

-- The state is what the emulator has sent and the host has not read.
abbrev pub tape : DeviceOps (List ℕ)
tape = record { send = some (λ s bytes. (negsuc 0, s)); recv = some (λ s len timeout. give s) }

abbrev pub blank_stack : List ℕ
blank_stack = 0 ∷ 0 ∷ 0 ∷ 0 ∷ 0 ∷ 0 ∷ 0 ∷ 0 ∷ 0 ∷ 0 ∷ 0 ∷ 0 ∷ 0 ∷ 0 ∷ 0 ∷ 0 ∷ []

abbrev pub tape_host : Host (List ℕ)
tape_host = record { device = tape; rand = λ s. (7, s); stack = blank_stack }

pub tape-refuses : (s bytes : List ℕ) → is_neg (device_send tape s bytes).0 ≡ true
unfolding device_send
tape-refuses s bytes = refl

-- The tape gives all its bytes.
pub tape-Delivers : (bytes : List ℕ) → Delivers tape 500 bytes bytes []
unfolding device_recv
tape-Delivers [] = refl
tape-Delivers (b ∷ bytes) = (bytes, refl, tape-Delivers bytes)
