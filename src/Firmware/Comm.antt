-- ===== src/Firmware/Comm.antt =====
-- ArduinoCardEmu/comm_helper.cpp and comm_helper.h: requests and answers as messages.
use open_pgpcard_emu.Base.{
  ℕ, zero, suc, ◌+◌, ◌-◌, ◌%◌, ◌^◌, bit_and, bit_or, Bool, true, false, ◌||◌, not, List, [], ◌∷◌,
  Option, none, some, ltb, ◌==◌, if◌then◌else◌, get_or, set, take, drop, length, write_at,
}
use open_pgpcard_emu.Base.Run.{Run, ok, err, ◌>>=◌, ◌>>◌, pure, lift}
use open_pgpcard_emu.Firmware.Crc8.{crc8}
use open_pgpcard_emu.Firmware.Board.{Board, Stuck, no_fuel}

abbrev pub cmd_hdr_size : ℕ
cmd_hdr_size = 1

abbrev pub cmd_crc_size : ℕ
cmd_crc_size = 1

abbrev pub cmd_timeout : ℕ
cmd_timeout = 500

abbrev pub cmd_size_mask : ℕ
cmd_size_mask = 0x1F

abbrev pub cmd_max_remsz : ℕ
cmd_max_remsz = 15

abbrev pub cmd_min_remsz : ℕ
cmd_min_remsz = 1

abbrev pub cmd_max_plsz : ℕ
cmd_max_plsz = 14

abbrev pub req_all_mask : ℕ
req_all_mask = 0xE0

pub data ReqType : Type 0 where
  invalid card_status card_send card_commit card_read : ReqType
  card_read_complete resync_complete resync : ReqType

-- The values of `enum class ReqType`.
unfoldable pub req_code : ReqType → ℕ
req_code invalid = 0x00
req_code card_status = 0x20
req_code card_send = 0x40
req_code card_commit = 0x60
req_code card_read = 0x80
req_code card_read_complete = 0xA0
req_code resync_complete = 0xC0
req_code resync = 0xE0

-- `static_cast<ReqType>(req)`, for a masked header.
unfoldable pub to_req_type : ℕ → ReqType
to_req_type req =
    if req == 0x20
    then card_status
    else if req == 0x40
    then card_send
    else if req == 0x60
    then card_commit
    else if req == 0x80
    then card_read
    else if req == 0xA0
    then card_read_complete
    else if req == 0xC0
    then resync_complete
    else if req == 0xE0
    then resync
    else invalid

pub data AnsType : Type 0 where
  card_absent card_present card_data card_eod ok_answer resync_answer : AnsType

-- The values of `enum class AnsType`.
unfoldable pub ans_code : AnsType → ℕ
ans_code card_absent = 0x20
ans_code card_present = 0x40
ans_code card_data = 0x80
ans_code card_eod = 0xA0
ans_code ok_answer = 0xC0
ans_code resync_answer = 0xE0

-- Of the payload, the bytes that are set.
pub record Request : Type 0 where
  pub req_type : ReqType
  pub pl_len : ℕ
  pub payload : List ℕ

abbrev pub invalid_request : Request
invalid_request = record { req_type = invalid; pl_len = 0; payload = [] }

-- `Request(req, payload, plLen)`
unfoldable pub make_request : ℕ → List ℕ → ℕ → Request
unfolding to_req_type
make_request req payload pl_len = record {
  req_type = to_req_type req;
  pl_len = pl_len;
  payload = take pl_len payload;
}

-- The `switch` of `ReceiveRequest`: does the kind of request allow this many bytes?
unfoldable pub request_fits : ℕ → ℕ → Bool
request_fits req rem_sz =
    if req == 0x60 || req == 0xA0
    then not (ltb cmd_min_remsz rem_sz)
    else if req == 0x20
    then not (ltb (cmd_min_remsz + 1) rem_sz)
    else if req == 0x40 || req == 0x80
    then not (rem_sz == cmd_min_remsz)
    else req == 0xE0 || req == 0xC0

-- The request in the buffer after its body was read, or after a timeout.
unfoldable pub checked : ℕ → ℕ → Option (List ℕ) → Request
unfolding make_request
checked req rem_sz none = invalid_request
checked req rem_sz (some buff) =
    let test_sz = cmd_hdr_size + rem_sz - 1 in
    if get_or buff test_sz 0 == crc8 (take test_sz buff)
    then make_request req (drop cmd_hdr_size buff) (rem_sz - cmd_crc_size)
    else invalid_request

module _ {S : Type 0} (board : Board S) where
  -- `while (!serial->available()) {}`
  unfoldable pub wait_available : ℕ → Run S Stuck (Unit {0})
  wait_available zero s = (err no_fuel, s)
  wait_available (suc n) s =
      let (count, s') = board.available s in
      elim (count == 0) [ true ↦ wait_available n s' | false ↦ (ok tt, s') ]

  -- `while (rem > 0)`, with `rem` an uint8_t and the clock an unsigned long of 32 bits; none after
  -- a timeout.
  unfoldable pub read_body : ℕ → ℕ → ℕ → ℕ → List ℕ → Run S Stuck (Option (List ℕ))
  read_body fuel zero rem_sz start buff s = (ok (some buff), s)
  read_body zero (suc rem) rem_sz start buff s = (err no_fuel, s)
  read_body (suc fuel) (suc rem) rem_sz start buff s =
      let (bytes, s') = board.read_bytes (suc rem) s in
      let buff' = write_at buff (cmd_hdr_size + (rem_sz - suc rem)) bytes in
      let (now, s'') = board.millis s' in
      elim (ltb cmd_timeout ((now + 2 ^ 32 - start) % 2 ^ 32)) [
        | true ↦ (ok none, s'')
        | false ↦ read_body fuel ((suc rem + 256 - length bytes % 256) % 256) rem_sz start buff' s''
      ]

  unfoldable pub receive_body : ℕ → ℕ → ℕ → List ℕ → Run S Stuck Request
  unfolding read_body checked
  receive_body rounds req rem_sz buff = do
    start ← lift board.millis
    body ← read_body rounds rem_sz rem_sz start buff
    pure (checked req rem_sz body)

  unfoldable pub read_header : Run S Stuck (List ℕ)
  read_header s = let (bytes, s') = board.read_bytes 1 s in (ok (write_at board.stack 0 bytes), s')

  -- What `ReceiveRequest` makes of a header with this number of bytes and this kind.
  unfoldable pub after_fields : ℕ → ℕ → ℕ → List ℕ → Run S Stuck Request
  unfolding receive_body request_fits
  after_fields rounds rem_sz req buff =
      elim (ltb rem_sz cmd_min_remsz || ltb cmd_max_remsz rem_sz) [
        | true ↦ pure invalid_request
        | false ↦ elim (request_fits req rem_sz) [
          | true ↦ receive_body rounds req rem_sz buff
          | false ↦ pure invalid_request
        ]
      ]

  unfoldable pub after_header : ℕ → List ℕ → Run S Stuck Request
  unfolding after_fields
  after_header rounds buff =
      after_fields rounds (bit_and (get_or buff 0 0) cmd_size_mask)
        (bit_and (get_or buff 0 0) req_all_mask) buff

  -- `ReceiveRequest`, with fuel for the wait and for the rounds that read the body.
  unfoldable pub receive_request : ℕ → ℕ → Run S Stuck Request
  unfolding wait_available read_header after_header
  receive_request patience rounds = wait_available patience >> read_header >>= after_header rounds

  -- `while (serial->write(byte) < 1);`
  unfoldable pub write_byte : ℕ → ℕ → Run S Stuck (Unit {0})
  write_byte zero byte s = (err no_fuel, s)
  write_byte (suc n) byte s =
      let (count, s') = board.write byte s in
      elim (count == 0) [ true ↦ write_byte n byte s' | false ↦ (ok tt, s') ]

  unfoldable pub write_bytes : ℕ → List ℕ → Run S Stuck (Unit {0})
  unfolding write_byte
  write_bytes patience [] = pure tt
  write_bytes patience (byte ∷ bytes) = write_byte patience byte >> write_bytes patience bytes

  -- `for (i = 0; i < plLen; ++i)`
  unfoldable pub place : ℕ → ℕ → List ℕ → List ℕ → List ℕ
  place zero i payload buff = buff
  place (suc n) i payload buff =
      place n (suc i) payload (set buff (cmd_hdr_size + i) (get_or payload i 0))

  -- The first `finalLen` bytes of `cmdBuff`.
  unfoldable pub answer_message : AnsType → List ℕ → ℕ → List ℕ
  unfolding place ans_code
  answer_message ans payload pl_len =
      let placed = place pl_len 0 payload board.stack in
      let headed = set placed 0 (bit_or (ans_code ans) (pl_len + cmd_crc_size)) in
      let test_len = pl_len + cmd_hdr_size in
      take (test_len + cmd_crc_size) (set headed test_len (crc8 (take test_len headed)))

  -- `SendAnswer`
  unfoldable pub send_answer : ℕ → AnsType → List ℕ → ℕ → Run S Stuck Bool
  unfolding answer_message write_bytes
  send_answer patience ans payload pl_len = elim (ltb cmd_max_plsz pl_len) [
    | true ↦ pure false
    | false ↦ write_bytes patience (answer_message ans payload pl_len) >> pure true
  ]
