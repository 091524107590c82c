-- ===== src/Frame.antt =====
-- The messages between the driver and the emulator, in ifd-cardemu.c: a header byte with the
-- kind of message and the number of bytes that follow, up to 14 bytes of payload, and a CRC.
-- A buffer is a list of bytes; a read outside it gives 0 and a write outside it changes nothing,
-- and the theorems on bounds show that neither happens.
pub mod Move
pub mod Build
pub mod Detect
use open_pgpcard_emu.Base.{
  ℕ, zero, suc, ◌+◌, ◌-◌, ◌<◌, bit_and, bit_or, Bool, true, false, ◌&&◌, ◌||◌, List, [], ◌∷◌, ◌++◌,
  ltb, ◌==◌, ◌!=◌, if◌then◌else◌, set, get_or, take, drop, length,
}
use open_pgpcard_emu.Crc8.{crc8}

abbrev pub cmd_hdr_size : ℕ
cmd_hdr_size = 1

abbrev pub cmd_crc_size : ℕ
cmd_crc_size = 1

abbrev pub cmd_buff_size : ℕ
cmd_buff_size = 16

abbrev pub cmd_size_mask : ℕ
cmd_size_mask = 0x1F

abbrev pub cmd_max_remsz : ℕ
cmd_max_remsz = 15

abbrev pub cmd_min_remsz : ℕ
cmd_min_remsz = 1

abbrev pub cmd_max_plsz : ℕ
cmd_max_plsz = 14

-- `REQ_*` and `ANS_*`
abbrev pub req_card_status : ℕ
req_card_status = 0x20

abbrev pub req_card_send : ℕ
req_card_send = 0x40

abbrev pub req_card_commit : ℕ
req_card_commit = 0x60

abbrev pub req_card_read : ℕ
req_card_read = 0x80

abbrev pub req_card_read_complete : ℕ
req_card_read_complete = 0xA0

abbrev pub req_resync_complete : ℕ
req_resync_complete = 0xC0

abbrev pub req_resync : ℕ
req_resync = 0xE0

abbrev pub ans_all_mask : ℕ
ans_all_mask = 0xE0

abbrev pub ans_card_absent : ℕ
ans_card_absent = 0x20

abbrev pub ans_card_present : ℕ
ans_card_present = 0x40

abbrev pub ans_card_data : ℕ
ans_card_data = 0x80

abbrev pub ans_card_eod : ℕ
ans_card_eod = 0xA0

abbrev pub ans_ok : ℕ
ans_ok = 0xC0

abbrev pub ans_resync : ℕ
ans_resync = 0xE0

-- The macros `comm_calc_payload_size`, `comm_get_remsize`, `comm_get_payload` (as an index) and
-- `comm_get_ans_mask`.
unfoldable pub calc_payload_size : ℕ → ℕ
calc_payload_size total = if ltb 0 total then total - cmd_crc_size else total

unfoldable pub get_remsize : List ℕ → ℕ
get_remsize buff = bit_and (get_or buff 0 0) cmd_size_mask

unfoldable pub get_payload : List ℕ → List ℕ
get_payload buff = drop cmd_hdr_size buff

unfoldable pub get_ans_mask : List ℕ → ℕ
get_ans_mask buff = bit_and (get_or buff 0 0) ans_all_mask

-- The `switch` of `comm_header_decode`: does the kind of answer allow this many bytes?
unfoldable pub answer_fits : ℕ → ℕ → Bool
answer_fits ans rem_sz =
    if ans == ans_card_absent || (ans == ans_card_eod || ans == ans_ok)
    then (if ltb cmd_min_remsz rem_sz then false else true)
    else if ans == ans_card_data
    then (if rem_sz == cmd_min_remsz then false else true)
    else ans == ans_card_present || ans == ans_resync

-- The number of bytes that follow the header, 0 for a header that is no answer's.
unfoldable pub header_decode : List ℕ → ℕ
unfolding answer_fits get_ans_mask
header_decode buff =
    let rem_sz = bit_and (get_or buff 0 0) cmd_size_mask in
    if ltb rem_sz cmd_min_remsz || ltb cmd_max_remsz rem_sz
    then 0
    else if answer_fits (get_ans_mask buff) rem_sz
    then rem_sz
    else 0

-- Does the last of the first `cmd_size` bytes hold the CRC of those before it?
unfoldable pub verify : List ℕ → ℕ → Bool
verify buff cmd_size =
    if ltb cmd_size (cmd_hdr_size + cmd_crc_size)
    then false
    else get_or buff (cmd_size - 1) 0 == crc8 (take (cmd_size - 1) buff)

-- Where `comm_message` finds its payload: in the message buffer itself, at an index, or from a place
-- before it on, where the listed bytes lie directly in front of the buffer and the payload may run on
-- into it, or in memory that does not overlap it.
pub data Payload : Type 0 where
  inside : ℕ → Payload
  before : List ℕ → Payload
  outside : List ℕ → Payload

-- `for (i = 0; i < plLen; ++i)`, for the `n` rounds left at `i`
unfoldable pub copy_up : ℕ → ℕ → ℕ → List ℕ → List ℕ
copy_up zero i off buff = buff
copy_up (suc n) i off buff =
    copy_up n (suc i) off (set buff (cmd_hdr_size + i) (get_or buff (off + i) 0))

-- `for (i = plLen; i > 0; --i)`, from the index `off` to the index `to` of memory
unfoldable pub copy_down : ℕ → ℕ → ℕ → List ℕ → List ℕ
copy_down zero to off mem = mem
copy_down (suc i) to off mem = copy_down i to off (set mem (to + i) (get_or mem (off + i) 0))

-- The same loops from other memory, where their order makes no difference.
unfoldable pub copy_from : ℕ → ℕ → List ℕ → List ℕ → List ℕ
copy_from zero i src buff = buff
copy_from (suc n) i src buff =
    copy_from n (suc i) src (set buff (cmd_hdr_size + i) (get_or src i 0))

unfoldable pub place_payload : Payload → ℕ → List ℕ → List ℕ
unfolding copy_up copy_down copy_from
place_payload (outside src) pl_len buff = copy_from pl_len 0 src buff
place_payload (inside off) pl_len buff =
    if off == cmd_hdr_size
    then buff
    else if ltb cmd_hdr_size off
    then copy_up pl_len 0 off buff
    else copy_down pl_len cmd_hdr_size off buff
place_payload (before front) pl_len buff =
    drop (length front) (copy_down pl_len (length front + cmd_hdr_size) 0 (front ++ buff))

-- The message in the buffer, and its length (0 if the payload is too long).
unfoldable pub message : ℕ → Payload → ℕ → List ℕ → ℕ × List ℕ
unfolding place_payload
message cmd_mask payload pl_len buff =
    if ltb cmd_max_plsz pl_len
    then (0, buff)
    else let placed = place_payload payload pl_len buff in
      let headed = set placed 0 (bit_or cmd_mask (pl_len + cmd_crc_size)) in
      let cmd_len = pl_len + cmd_hdr_size in
      (cmd_len + cmd_crc_size, set headed cmd_len (crc8 (take cmd_len headed)))
