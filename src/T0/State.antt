-- ===== src/T0/State.antt =====
-- The state of T=0, its parameters, and the sending and receiving of bytes.
use open_pgpcard_emu.Base.{
  ℕ, ◌+◌, ◌%◌, ◌^◌, Bool, true, false, ◌||◌, ◌==◌, ltb, if◌then◌else◌, Option, none, some, length,
  ℤ, pos, negsuc, is_neg, write_at,
}
use open_pgpcard_emu.Buffer.{Buf, avail, tailroom, head_bytes, get, reserve}
use open_pgpcard_emu.T1.Channel.{Driver, send_command, recv_response}

-- `IDLE, SENDING, RECEIVING, CONFUSED`
pub data Phase : Type 0 where
  idle sending receiving confused : Phase

-- `t0_state_t`
pub record T0 : Type 0 where
  pub phase : Phase
  pub timeout : ℕ
  pub block_oriented : ℕ
  pub max_nulls : ℕ

unfoldable pub set_defaults : T0 → T0
set_defaults t = record t { phase = idle; timeout = 2000; max_nulls = 800 }

-- `calloc` has zeroed the state.
unfoldable pub init : T0
unfolding set_defaults
init = set_defaults (record { phase = idle; timeout = 0; block_oriented = 0; max_nulls = 0 })

-- The parameters that `t0_set_param` knows, and those that it does not.
pub data Param : Type 0 where
  recv_timeout oriented other_param : Param

-- The flag is the return code, false for -1.
unfoldable pub set_param : Param → ℕ → T0 → Bool × T0
set_param recv_timeout v t = (true, record t { timeout = v })
set_param oriented v t = (true, record t { block_oriented = v % 2 ^ 32 })
set_param other_param v t = (false, t)

unfoldable pub get_param : Param → T0 → Option ℕ
get_param recv_timeout t = some t.timeout
get_param oriented t = some t.block_oriented
get_param other_param t = none

-- `t0_resynch`
unfoldable pub t0_resynch : T0 → ℤ
t0_resynch t = negsuc 0

-- `count`, or all there is if it is negative
abbrev pub or_all : ℕ → ℤ → ℕ
or_all all (pos n) = n
or_all all (negsuc n) = all

module _ {S : Type 0} (drv : Driver S) where
  -- The result, the buffer, and the outside.
  unfoldable pub t0_send : ℤ → Buf → S → ℤ × Buf × S
  unfolding avail head_bytes get
  t0_send count b s =
      let n = or_all (avail b) count in
      if ltb (avail b) n || avail b == 0
      then (negsuc 0, b, s)
      else let (r, s') = send_command drv s (head_bytes b n) in
        (r, (if is_neg r then b else (get n b).2), s')

  -- `none` where the driver has written behind the memory of the buffer.
  unfoldable pub t0_recv : ℤ → ℕ → Buf → S → Option (ℤ × Buf × S)
  unfolding tailroom reserve
  t0_recv count timeout b s =
      let n = or_all (tailroom b) count in
      let (r, bytes, s') = recv_response drv s n timeout in
      let b' = record b { base = write_at b.base b.tail bytes } in
      if ltb (length b.base) (b.tail + length bytes)
      then none
      else some (r, (if is_neg r then b' else reserve n b'), s')
