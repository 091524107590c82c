-- ===== src/Examples/Blocks.antt =====
-- Buffers, T=1 blocks and APDUs of OpenCTDriver on concrete bytes.
use open_pgpcard_emu.Base.{
  ℕ, ◌+◌, ◌≤◌, ◌≡◌, refl, true, false, List, [], ◌∷◌, ◌++◌, arith, pos, none, some, length, take,
  drop, replicate,
}
use open_pgpcard_emu.Base.Slice.{slice}
use open_pgpcard_emu.Buffer.{Buf, avail, get, push, put}
use open_pgpcard_emu.Buffer.Push.{push-prepends}
use open_pgpcard_emu.Buffer.Queue.{IsBuf, content, put-appends, get-takes}
use open_pgpcard_emu.Ctbcs.{build_verify_apdu}
use open_pgpcard_emu.Ctbcs.Build.{IsResult, command, verify_body, build_verify_apdu-IsResult}
use open_pgpcard_emu.Tlv.Builder
use open_pgpcard_emu.Tlv.Parser
use open_pgpcard_emu.Tlv.Items.{Item, AreItems, find}
use open_pgpcard_emu.Tlv.Built.{put_all}
use open_pgpcard_emu.Tlv.RoundTrip.{parse-put_all}
use open_pgpcard_emu.Buffer
use open_pgpcard_emu.Apdu.{iso_apdu_parse}
use open_pgpcard_emu.Apdu.Cases.{expected, iso_apdu_parse-encode}
use open_pgpcard_emu.T1.Block.{T1, sending, lrc, crc, build, verify_checksum}
use open_pgpcard_emu.T1.Bounds.{built_length, build-verify, build-overflows}
use open_pgpcard_emu.T1.Channel.{Driver}
use open_pgpcard_emu.T1.Transceive.{transceive}
use open_pgpcard_emu.T1.Safety.{IsSafe, transceive-IsSafe}

-- Four bytes of memory, of which the third is unread.
abbrev small_buf : Buf
small_buf = record { base = 1 ∷ 2 ∷ 3 ∷ 4 ∷ []; head = 2; tail = 3; size = 4; overrun = false }

small_buf-IsBuf : IsBuf small_buf
small_buf-IsBuf = (omega arith, omega arith, refl, omega arith)

unread : length (content small_buf) ≡ 1
unfolding slice
unread = refl

-- The two new bytes fit only after the third byte has moved.
put-appends_example :
    let out = put (8 ∷ 9 ∷ []) small_buf in
    (out.0 ≡ pos 2)
    × IsBuf out.1
    × (out.1.size ≡ 4)
    × (content out.1 ≡ content small_buf ++ 8 ∷ 9 ∷ [])
put-appends_example =
    put-appends (8 ∷ 9 ∷ []) small_buf small_buf-IsBuf (omega arith) (omega (arith, unread))

get-takes_example :
    let out = get 1 small_buf in
    (out.0 ≡ pos 1)
    × (out.1 ≡ take 1 (content small_buf))
    × IsBuf out.2
    × (content out.2 ≡ drop 1 (content small_buf))
get-takes_example = get-takes 1 small_buf small_buf-IsBuf (omega arith) (omega (arith, unread))

push-prepends_example :
    let out = push (8 ∷ 9 ∷ []) small_buf in
    (out.0 ≡ pos 2) × IsBuf out.1 × (content out.1 ≡ 8 ∷ 9 ∷ content small_buf)
push-prepends_example =
    push-prepends (8 ∷ 9 ∷ []) small_buf small_buf-IsBuf (omega arith) (omega arith)

-- VERIFY with a PIN of three digits, and an answer of up to 256 bytes.
iso_apdu_parse-encode_example :
    iso_apdu_parse (0x00 ∷ 0x20 ∷ 0x00 ∷ 0x82 ∷ 3 ∷ 0x31 ∷ 0x32 ∷ 0x33 ∷ 0 ∷ [])
    ≡ some (expected 0x00 0x20 0x00 0x82 (0x31 ∷ 0x32 ∷ 0x33 ∷ []) (some 256))
iso_apdu_parse-encode_example =
    iso_apdu_parse-encode 0x00 0x20 0x00 0x82 (0x31 ∷ 0x32 ∷ 0x33 ∷ []) (some 256) (omega arith)
      (omega arith, omega arith)

abbrev t1 : T1
t1 = record {
  phase = sending;
  block_oriented = false;
  ns = 0;
  nr = 0;
  ifsc = 32;
  ifsd = 32;
  timeout = 20000;
  wtx = 0;
  retries = 3;
  csum = lrc;
}

abbrev block_buffer : List ℕ
block_buffer = replicate 259 0

room : built_length t1 (some small_buf) ≤ length block_buffer
unfolding avail
room = omega arith

build-verify_example :
    (out : ℕ × ℕ × List ℕ) × (build t1 0 0 (some small_buf) block_buffer ≡ some out)
    × (verify_checksum lrc out.0 out.2 ≡ true)
build-verify_example = build-verify t1 0 0 (some small_buf) block_buffer room

-- A card that answers each time with the same I-block.
abbrev card : Driver ℕ
card = record {
  send = some (λ s bytes. (pos (length bytes), s + 1));
  recv = some (λ s n timeout. (pos n, take n (0 ∷ 0 ∷ 1 ∷ []), s));
}

transceive-IsSafe_example :
    let out = transceive card 8 t1 0 (1 ∷ 2 ∷ []) (replicate 8 0) block_buffer 0 in
    IsSafe 8 out.0 out.1
transceive-IsSafe_example =
    transceive-IsSafe card 8 t1 0 (1 ∷ 2 ∷ []) (replicate 8 0) block_buffer 0 (omega arith)
      (omega arith) refl

-- Blocks of 255 bytes with the CRC, and a command that fills one.
abbrev large_blocks : T1
large_blocks = record t1 { ifsc = 255; csum = crc }

abbrev long_command : Buf
long_command = record { base = replicate 256 7; head = 0; tail = 256; size = 256; overrun = false }

enough : 255 ≤ avail long_command
unfolding avail
enough = omega arith

build-overflows_example : build large_blocks 0 0 (some long_command) block_buffer ≡ none
build-overflows_example =
    build-overflows large_blocks 0 0 long_command block_buffer refl refl refl enough

-- Two items under the tag 1, and one under the tag 2.
abbrev items : List Item
items = (1, 7 ∷ 8 ∷ []) ∷ (2, 9 ∷ []) ∷ (1, 5 ∷ []) ∷ []

items-AreItems : AreItems items
items-AreItems = (
  (omega arith, refl, omega arith, omega arith),
  (
    (omega arith, refl, omega arith, omega arith),
    ((omega arith, refl, omega arith, omega arith), tt),
  ),
)

parse-put_all_example :
    let w = put_all items (Builder.init (Buffer.init (replicate 16 0) 16) false) in
    let out = Parser.parse Parser.blank w.buf in
    (w.error ≡ false)
    × (out.0 ≡ true)
    × ((tag : ℕ) → Parser.get_opaque w.buf.base out.1 tag ≡ find tag items)
parse-put_all_example =
    parse-put_all items (replicate 16 0) items-AreItems (omega arith) (omega arith)

-- The prompt "PIN", ten seconds, and two bytes of data.
build_verify_apdu-IsResult_example :
    IsResult (command 0x18 0x01 (verify_body (80 ∷ 73 ∷ 78 ∷ []) 10 (0x25 ∷ 0x07 ∷ []))) 40 (
      build_verify_apdu
        (replicate 40 0)
        40
        0x18
        0x01
        (some (80 ∷ 73 ∷ 78 ∷ []))
        10
        (0x25 ∷ 0x07 ∷ []))
build_verify_apdu-IsResult_example =
    build_verify_apdu-IsResult (replicate 40 0) 0x18 0x01 (80 ∷ 73 ∷ 78 ∷ []) 10 0x25 (0x07 ∷ [])
      (omega arith)
