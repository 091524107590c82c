-- ===== src/Examples/Entries.antt =====
-- The entries of OpenCTDriver/src/ifd/ifd-cardemu.c on a line that takes no byte.
use open_pgpcard_emu.Base.{ℕ, ◌≡◌, List, [], ◌∷◌, arith, pos, negsuc, ◌⊎◌}
use open_pgpcard_emu.Cardemu.Reset.{returned}
use open_pgpcard_emu.Cardemu.Transmit.{send, recv}
use open_pgpcard_emu.Cardemu.NoData.{recv-no_data}
use open_pgpcard_emu.Cardemu.SendTotal.{send_total}
use open_pgpcard_emu.Cardemu.DeadLine.{send-claims_success}
use open_pgpcard_emu.Examples.Devices.{tape_host, tape-refuses}

-- A CARD_DATA message with the payload 1, 2, and the end of the data.
abbrev answer_tape : List ℕ
answer_tape = 0x83 ∷ 1 ∷ 2 ∷ 0x55 ∷ 0xA1 ∷ 0x12 ∷ []

-- GET CHALLENGE
abbrev command : List ℕ
command = 0x00 ∷ 0x84 ∷ 0x00 ∷ 0x00 ∷ 0x08 ∷ []

recv-no_data_example :
    ((recv tape_host 256 answer_tape).0 ≡ returned (pos 0) [])
    ⊎ ((recv tape_host 256 answer_tape).0 ≡ returned (negsuc 0) [])
recv-no_data_example = recv-no_data tape_host 256 answer_tape

send_total_example :
    ((send tape_host command answer_tape).0 ≡ returned (pos 0) [])
    ⊎ ((send tape_host command answer_tape).0 ≡ returned (negsuc 0) [])
send_total_example = send_total tape_host command answer_tape

send-claims_success_example : (send tape_host command []).0 ≡ returned (pos 0) []
send-claims_success_example = send-claims_success tape_host tape-refuses command [] (omega arith)
