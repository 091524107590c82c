-- ===== src/Examples/Messages.antt =====
-- Messages of OpenCTDriver/src/ifd/ifd-cardemu.c: one built, received, changed on the line.
use open_pgpcard_emu.Base.{
  ℕ, ◌+◌, ◌≡◌, ◌≢◌, refl, ap, ◌≤◌, List, [], ◌∷◌, ◌++◌, arith, AreBytes, false, length, take, drop,
  get_or,
}
use open_pgpcard_emu.Base.Slice.{slice}
use open_pgpcard_emu.Crc8.{crc8}
use open_pgpcard_emu.Crc8.Reference.{crc8_bitwise, crc8-crc8_bitwise}
use open_pgpcard_emu.Frame.{before, message, verify, header_decode}
use open_pgpcard_emu.Frame.Build.{frame, header_of, message-frame}
use open_pgpcard_emu.Frame.Detect.{verify-refuses_change}
use open_pgpcard_emu.Line.{comm_recv_message}
use open_pgpcard_emu.Line.Sound.{comm_recv_message_sound}
use open_pgpcard_emu.Line.Receive.{comm_recv_message-round_trip, comm_recv_message-refuses}
use open_pgpcard_emu.Examples.Devices.{tape, blank_stack, tape-Delivers}

-- ANS_CARD_DATA with the payload 1, 2.
abbrev body : List ℕ
body = 1 ∷ 2 ∷ []

abbrev header : ℕ
header = 0x83

abbrev whole : List ℕ
whole = 0x83 ∷ 1 ∷ 2 ∷ crc8 (0x83 ∷ 1 ∷ 2 ∷ []) ∷ []

abbrev wrong : List ℕ
wrong = 0x83 ∷ 1 ∷ 2 ∷ 0 ∷ []

body-AreBytes : AreBytes body
body-AreBytes = (omega arith, (omega arith, tt))

decodes : header_decode (header ∷ []) ≡ length body + 1
unfolding header_decode
decodes = refl

wrong-check : 0 ≢ crc8 (0x83 ∷ 1 ∷ 2 ∷ [])
unfolding crc8
wrong-check e = cc

comm_recv_message-round_trip_example :
    (comm_recv_message tape 500 blank_stack whole).0
    ≡ (length body + 2, frame header body ++ drop (length body + 2) blank_stack)
comm_recv_message-round_trip_example =
    comm_recv_message-round_trip tape 500 header body blank_stack whole [] (omega arith) decodes
      (tape-Delivers whole)

comm_recv_message-refuses_example : (comm_recv_message tape 500 blank_stack wrong).0.0 ≡ 0
comm_recv_message-refuses_example =
    comm_recv_message-refuses tape 500 header body 0 blank_stack wrong [] (omega arith) decodes
      (tape-Delivers wrong) wrong-check

comm_recv_message_sound_example :
    let buff = (comm_recv_message tape 500 blank_stack whole).0.1 in
    (4 ≡ header_decode buff + 1) × (2 ≤ 4) × (4 ≤ 16) × (get_or buff 3 0 ≡ crc8 (take 3 buff))
comm_recv_message_sound_example =
    comm_recv_message_sound tape 500 blank_stack whole 4
      (ap (λ (out : ℕ × List ℕ). out.0) comm_recv_message-round_trip_example) (λ e. cc)

-- A payload of three bytes that starts one byte before the buffer.
message-frame_example :
    let out = message 0x40 (before (9 ∷ [])) 3 (0 ∷ 1 ∷ 2 ∷ 3 ∷ 4 ∷ 5 ∷ 6 ∷ []) in
    (out.0 ≡ 5) × (take 5 out.1 ≡ frame (header_of 0x40 3) (9 ∷ 0 ∷ 1 ∷ [])) × (length out.1 ≡ 7)
unfolding slice
message-frame_example =
    message-frame 0x40 (before (9 ∷ [])) 3 (0 ∷ 1 ∷ 2 ∷ 3 ∷ 4 ∷ 5 ∷ 6 ∷ []) (omega arith)
      (omega arith)

verify-refuses_change_example :
    (verify ((0x83 ∷ 9 ∷ 2 ∷ []) ++ crc8 (0x83 ∷ 1 ∷ 2 ∷ []) ∷ []) 4 ≡ false)
    × (verify ((0x83 ∷ 1 ∷ 2 ∷ []) ++ 0 ∷ []) 4 ≡ false)
verify-refuses_change_example =
    verify-refuses_change (0x83 ∷ []) 1 9 0 (2 ∷ []) [] (omega arith, tt) (omega arith)
      (omega arith) (omega arith, tt) (λ e. cc) wrong-check

crc8-crc8_bitwise_example : crc8 body ≡ crc8_bitwise 0xFF body
crc8-crc8_bitwise_example = crc8-crc8_bitwise body body-AreBytes
