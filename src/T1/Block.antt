-- ===== src/T1/Block.antt =====
-- The protocol's state, its parameters, and how blocks are built and checked.
use open_pgpcard_emu.Base.{
  length, ℕ, ◌+◌, ◌-◌, ◌*◌, ◌/◌, ◌%◌, ◌^◌, bit_and, bit_or, Bool, true, false, List, [], ◌∷◌, ◌&&◌,
  ◌==◌, ◌!=◌, ltb, if◌then◌else◌, Option, none, some, get_or, take, drop, write_at,
}
use open_pgpcard_emu.Base.Slice.{slice}
use open_pgpcard_emu.Buffer.{Buf, avail, head_bytes}
use open_pgpcard_emu.Checksum.{csum_lrc_compute, csum_crc_compute}

-- `SENDING, RECEIVING, RESYNCH, DEAD`
pub data Phase : Type 0 where
  sending receiving resynch dead : Phase

-- The function pointer `checksum` with its `rc_bytes`.
pub data Csum : Type 0 where
  lrc crc : Csum

-- `t1_state_t`
pub record T1 : Type 0 where
  pub phase : Phase
  pub block_oriented : Bool
  pub ns : ℕ
  pub nr : ℕ
  pub ifsc : ℕ
  pub ifsd : ℕ
  pub timeout : ℕ
  pub wtx : ℕ
  pub retries : ℕ
  pub csum : Csum

abbrev pub rc_bytes : Csum → ℕ
rc_bytes lrc = 1
rc_bytes crc = 2

-- `T1_R_BLOCK` and the other constants of the protocol byte.
abbrev pub i_block : ℕ
i_block = 0x00

abbrev pub r_block : ℕ
r_block = 0x80

abbrev pub s_block : ℕ
s_block = 0xC0

abbrev pub more_blocks : ℕ
more_blocks = 0x20

abbrev pub edc_error : ℕ
edc_error = 0x01

abbrev pub other_error : ℕ
other_error = 0x02

abbrev pub s_response : ℕ
s_response = 0x20

abbrev pub s_resync : ℕ
s_resync = 0x00

abbrev pub s_ifs : ℕ
s_ifs = 0x01

abbrev pub s_abort : ℕ
s_abort = 0x02

abbrev pub s_wtx : ℕ
s_wtx = 0x03

abbrev pub t1_buffer_size : ℕ
t1_buffer_size = 259

unfoldable pub set_defaults : T1 → T1
set_defaults t = record t {
  retries = 3;
  timeout = 20000;
  ifsc = 32;
  ifsd = 32;
  nr = 0;
  ns = 0;
  wtx = 0;
}

unfoldable pub set_checksum : Csum → T1 → T1
set_checksum c t = record t { csum = c }

-- `calloc` has zeroed the state; a device that is no serial line does the framing itself.
unfoldable pub init : Bool → T1
unfolding set_defaults set_checksum
init is_serial =
    let zeroed : T1 = record {
      phase = sending;
      block_oriented = false;
      ns = 0;
      nr = 0;
      ifsc = 0;
      ifsd = 0;
      timeout = 0;
      wtx = 0;
      retries = 0;
      csum = lrc;
    } in
    let t = set_checksum lrc (set_defaults zeroed) in
    if is_serial then t else record t { block_oriented = true }

-- The parameters that `t1_set_param` knows, and those that it does not.
pub data Param : Type 0 where
  recv_timeout oriented checksum_lrc checksum_crc ifsc_param ifsd_param other_param : Param

-- The flag is the return code, false for -1. The fields are `unsigned int`.
unfoldable pub set_param : Param → ℕ → T1 → Bool × T1
unfolding set_checksum
set_param recv_timeout v t = (true, record t { timeout = v % 2 ^ 32 })
set_param oriented v t = (true, record t { block_oriented = v != 0 })
set_param checksum_lrc v t = (true, set_checksum lrc t)
set_param checksum_crc v t = (true, set_checksum crc t)
set_param ifsc_param v t = (true, record t { ifsc = v % 2 ^ 32 })
set_param ifsd_param v t = (true, record t { ifsd = v % 2 ^ 32 })
set_param other_param v t = (false, t)

unfoldable pub get_param : Param → T1 → Option ℕ
get_param recv_timeout t = some t.timeout
get_param oriented t = some (if t.block_oriented then 1 else 0)
get_param _ t = none

-- `t1_block_type`
pub data BlockType : Type 0 where
  i r s : BlockType

unfoldable pub block_type : ℕ → BlockType
block_type pcb =
    let b = bit_and pcb 0xC0 in if b == r_block then r else if b == s_block then s else i

-- `t1_seq`
unfoldable pub seq_of : BlockType → ℕ → ℕ
seq_of r pcb = bit_and (pcb / 16) 1
seq_of s pcb = 0
seq_of i pcb = bit_and (pcb / 64) 1

unfoldable pub seq : ℕ → ℕ
unfolding seq_of block_type
seq pcb = seq_of (block_type pcb) pcb

unfoldable pub checksum : Csum → List ℕ → List ℕ
checksum lrc bytes = csum_lrc_compute bytes
checksum crc bytes = csum_crc_compute bytes

-- The block with its checksum behind the first `len` bytes.
unfoldable pub compute_checksum : Csum → ℕ → List ℕ → List ℕ
unfolding checksum
compute_checksum c len block = write_at block len (checksum c (take len block))

-- Do the last of the first `len` bytes hold the checksum of those before them?
unfoldable pub same_bytes : List ℕ → List ℕ → Bool
same_bytes [] ys = true
same_bytes (x ∷ xs) ys = x == get_or ys 0 0 && same_bytes xs (drop 1 ys)

unfoldable pub verify_checksum : Csum → ℕ → List ℕ → Bool
unfolding checksum same_bytes
verify_checksum c len block =
    if ltb len (rc_bytes c)
    then false
    else let m = len - rc_bytes c in
      same_bytes (checksum c (take m block)) (slice m (rc_bytes c) block)

unfoldable pub with_seq : BlockType → T1 → ℕ → ℕ
with_seq r t pcb = bit_or pcb (t.nr * 16 % 256)
with_seq i t pcb = bit_or pcb (t.ns * 64 % 256)
with_seq s t pcb = pcb

-- What `t1_build` writes into a block buffer with room for it: the length of the block, the number
-- of bytes taken from `bp` (`*lenp`), and the buffer.
unfoldable pub built : T1 → ℕ → ℕ → Option Buf → List ℕ → ℕ × ℕ × List ℕ
unfolding with_seq block_type compute_checksum
built t dad pcb bp block =
    let all : ℕ = elim bp [ none ↦ 0 | some b ↦ avail b ] in
    let more = ltb t.ifsc all in
    let len = if more then t.ifsc else all in
    let pcb₁ = if more then bit_or pcb more_blocks else pcb in
    let pcb₂ = with_seq (block_type pcb₁) t pcb₁ in
    let headed = write_at block 0 (dad % 256 ∷ pcb₂ ∷ len % 256 ∷ []) in
    let filled : List ℕ = elim bp [
      | none ↦ headed
      | some b ↦ write_at headed 3 (head_bytes b len)
    ] in
    (len + 3 + rc_bytes t.csum, len, compute_checksum t.csum (len + 3) filled)

-- `t1_build`; `none` is a write behind the memory of the block buffer.
unfoldable pub build : T1 → ℕ → ℕ → Option Buf → List ℕ → Option (ℕ × ℕ × List ℕ)
unfolding built
build t dad pcb bp block =
    let out = built t dad pcb bp block in if ltb (length block) out.0 then none else some out
