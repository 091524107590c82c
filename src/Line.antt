-- ===== src/Line.antt =====
-- Sending and receiving messages over the serial line: `comm_recv`, `comm_send` and
-- `comm_recv_message` of ifd-cardemu.c. A function that fills a buffer returns the buffer.
pub mod Sound
pub mod Receive
use open_pgpcard_emu.Base.{
  ℕ, zero, suc, ◌+◌, ◌-◌, Bool, true, false, List, Option, none, some, ℤ, pos, negsuc, ltb, ◌==◌,
  if◌then◌else◌, write_at, length, take,
}
use open_pgpcard_emu.Device.{DeviceOps, device_send, device_recv}
use open_pgpcard_emu.Frame.{header_decode, verify, message, Payload, cmd_hdr_size}

-- What `comm_recv` makes of the result for one byte.
pub data Got : Type 0 where
  timed_out failed stored : Got

unfoldable pub classify : ℤ → Got
classify (pos n) = stored
classify (negsuc zero) = failed
classify (negsuc (suc zero)) = timed_out
classify (negsuc (suc (suc n))) = stored

module _ {S : Type 0} (dev : DeviceOps S) where
  -- The loop of `comm_recv` with `n` bytes left, `i` received, into the buffer from `base` on.
  unfoldable pub recv_bytes : ℕ → ℕ → ℕ → ℕ → List ℕ → S → (ℕ × List ℕ) × S
  unfolding classify
  recv_bytes zero i base timeout buff s = ((i, buff), s)
  recv_bytes (suc n) i base timeout buff s =
      let (r, bytes, s') = device_recv dev s 1 timeout in
      let buff' = write_at buff (base + i) bytes in
      elim (classify r) [
        | timed_out ↦ ((i, buff'), s')
        | failed ↦ ((0, buff'), s')
        | stored ↦ recv_bytes n (suc i) base timeout buff' s'
      ]

  -- `comm_recv(dev, buff + base, len, timeout)`
  unfoldable pub comm_recv : ℕ → ℕ → ℕ → List ℕ → S → (ℕ × List ℕ) × S
  unfolding recv_bytes
  comm_recv base len timeout buff s = recv_bytes len 0 base timeout buff s

  unfoldable pub is_count : ℤ → ℕ → Bool
  is_count (pos n) len = n == len
  is_count (negsuc n) len = false

  -- `comm_send(dev, buff, len)`
  unfoldable pub comm_send : List ℕ → ℕ → S → ℕ × S
  unfolding is_count
  comm_send buff len s =
      let (r, s') = device_send dev s (take len buff) in (if is_count r len then len else 0, s')

  -- `while (rem > 0)`: each round receives at least one byte or ends the loop, so `rem` rounds
  -- are enough.
  unfoldable pub recv_rest : ℕ → ℕ → ℕ → ℕ → List ℕ → S → (ℕ × List ℕ) × S
  recv_rest zero rem rem_len timeout buff s = ((rem, buff), s)
  recv_rest (suc fuel) rem rem_len timeout buff s = elim (ltb 0 rem) [
    | false ↦ ((rem, buff), s)
    | true ↦
        let ((dr, buff'), s') = comm_recv (cmd_hdr_size + (rem_len - rem)) rem timeout buff s in
        elim (dr == 0) [
          | true ↦ ((rem, buff'), s')
          | false ↦ recv_rest fuel (rem - dr) rem_len timeout buff' s'
        ]
  ]

  -- 0 for a timeout or an error, else the length of the message in the buffer.
  unfoldable pub comm_recv_message : ℕ → List ℕ → S → (ℕ × List ℕ) × S
  comm_recv_message timeout buff s =
      let ((n, buff₁), s₁) = comm_recv 0 cmd_hdr_size timeout buff s in
      if n == 0
      then ((0, buff₁), s₁)
      else let rem_len = header_decode buff₁ in
        if rem_len == 0
        then ((0, buff₁), s₁)
        else let ((rem, buff₂), s₂) = recv_rest rem_len rem_len rem_len timeout buff₁ s₁ in
          if ltb 0 rem
          then ((0, buff₂), s₂)
          else let msg_len = rem_len + cmd_hdr_size in
            (((if verify buff₂ msg_len then msg_len else 0), buff₂), s₂)
