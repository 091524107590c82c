-- ===== src/Firmware/Codes.antt =====
-- The header byte of a message of comm_helper.h, taken apart again: for every kind of message and
-- up to 14 bytes of payload.
use open_pgpcard_emu.Base.{ℕ, ◌+◌, ◌*◌, ◌≤◌, ◌<◌, ◌≡◌, refl, bit_and, Bool, true, ◌&&◌, arith, ◌==◌}
use open_pgpcard_emu.Base.Bits.{all_below, all_below_sound}
use open_pgpcard_emu.Frame.Build.{header_of}
use open_pgpcard_emu.Firmware.Comm.{
  ReqType, invalid, card_status, card_send, card_commit, card_read, card_read_complete,
  resync_complete, resync, AnsType, card_absent, card_present, card_data, card_eod, ok_answer,
  resync_answer, req_code, to_req_type, ans_code,
}

fields_test : ℕ → ℕ → Bool
fields_test c n =
    bit_and (header_of (c * 32) n) 0x1F == n + 1 && bit_and (header_of (c * 32) n) 0xE0 == c * 32

fields_table : all_below 8 (λ c. all_below 15 (fields_test c)) ≡ true
unfolding all_below fields_test
fields_table = refl

pub header-fields :
    (c n : ℕ)
    → c < 8
    → n ≤ 14
    → (bit_and (header_of (c * 32) n) 0x1F ≡ n + 1) × (bit_and (header_of (c * 32) n) 0xE0 ≡ c * 32)
unfolding fields_test
header-fields c n lo hi =
    let checked =
      all_below_sound 15 (fields_test c) n
        (all_below_sound 8 (λ k. all_below 15 (fields_test k)) c fields_table lo) (omega arith) in
    (ground (arith, checked), ground (arith, checked))

pub req-fields :
    (kind : ReqType) (n : ℕ)
    → n ≤ 14
    → (bit_and (header_of (req_code kind) n) 0x1F ≡ n + 1)
      × (bit_and (header_of (req_code kind) n) 0xE0 ≡ req_code kind)
unfolding req_code
req-fields invalid n h = header-fields 0 n (omega arith) h
req-fields card_status n h = header-fields 1 n (omega arith) h
req-fields card_send n h = header-fields 2 n (omega arith) h
req-fields card_commit n h = header-fields 3 n (omega arith) h
req-fields card_read n h = header-fields 4 n (omega arith) h
req-fields card_read_complete n h = header-fields 5 n (omega arith) h
req-fields resync_complete n h = header-fields 6 n (omega arith) h
req-fields resync n h = header-fields 7 n (omega arith) h

pub to_req_type-req_code : (kind : ReqType) → to_req_type (req_code kind) ≡ kind
unfolding to_req_type req_code
to_req_type-req_code invalid = refl
to_req_type-req_code card_status = refl
to_req_type-req_code card_send = refl
to_req_type-req_code card_commit = refl
to_req_type-req_code card_read = refl
to_req_type-req_code card_read_complete = refl
to_req_type-req_code resync_complete = refl
to_req_type-req_code resync = refl

pub ans-fields :
    (kind : AnsType) (n : ℕ)
    → n ≤ 14
    → (bit_and (header_of (ans_code kind) n) 0x1F ≡ n + 1)
      × (bit_and (header_of (ans_code kind) n) 0xE0 ≡ ans_code kind)
unfolding ans_code
ans-fields card_absent n h = header-fields 1 n (omega arith) h
ans-fields card_present n h = header-fields 2 n (omega arith) h
ans-fields card_data n h = header-fields 4 n (omega arith) h
ans-fields card_eod n h = header-fields 5 n (omega arith) h
ans-fields ok_answer n h = header-fields 6 n (omega arith) h
ans-fields resync_answer n h = header-fields 7 n (omega arith) h
