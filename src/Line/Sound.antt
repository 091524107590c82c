-- ===== src/Line/Sound.antt =====
-- What `comm_recv_message` of OpenCTDriver/src/ifd/ifd-cardemu.c accepts, whatever the device does.
use open_pgpcard_emu.Base.{
  ℕ, zero, suc, ◌+◌, ◌-◌, ◌≤◌, ◌≡◌, ◌≢◌, refl, ap, List, [], ◌∷◌, arith, true, get_or, take,
  write_at,
}
use open_pgpcard_emu.Base.Write.{get_or-write_at_before}
use open_pgpcard_emu.Crc8.{crc8}
use open_pgpcard_emu.Device.{DeviceOps, device_recv}
use open_pgpcard_emu.Frame.{header_decode, verify}
use open_pgpcard_emu.Line.{recv_bytes, comm_recv, recv_rest, comm_recv_message}

-- The header's number of bytes is at most 15.
header_decode-le : (buff : List ℕ) → header_decode buff ≤ 15
unfolding header_decode
header_decode-le buff = ground arith

pub header_decode-head :
    (a b : List ℕ) → get_or a 0 0 ≡ get_or b 0 0 → header_decode a ≡ header_decode b
unfolding header_decode
header_decode-head a b e = ap (λ h. header_decode (h ∷ [])) e

module _ {S : Type 0} (dev : DeviceOps S) where
  -- No byte before the place that is asked for is written.
  recv_bytes-head :
      (n i base timeout : ℕ) (buff : List ℕ) (s : S)
      → 1 ≤ base
      → get_or (recv_bytes dev n i base timeout buff s).0.1 0 0 ≡ get_or buff 0 0
  unfolding recv_bytes
  recv_bytes-head zero i base timeout buff s h = refl
  recv_bytes-head (suc n) i base timeout buff s h = ground (
    arith,
    get_or-write_at_before buff (base + i) (device_recv dev s 1 timeout).1 0,
    recv_bytes-head n (suc i) base timeout
        (write_at buff (base + i) (device_recv dev s 1 timeout).1) (device_recv dev s 1 timeout).2
        h,
  )

  recv_rest-head :
      (fuel rem rem_len timeout : ℕ) (buff : List ℕ) (s : S)
      → get_or (recv_rest dev fuel rem rem_len timeout buff s).0.1 0 0 ≡ get_or buff 0 0
  unfolding recv_rest comm_recv
  recv_rest-head zero rem rem_len timeout buff s = refl
  recv_rest-head (suc fuel) rem rem_len timeout buff s =
      let base = 1 + (rem_len - rem) in
      let out = recv_bytes dev rem 0 base timeout buff s in
      ground (
        arith,
        recv_bytes-head rem 0 base timeout buff s (omega arith),
        recv_rest-head fuel (rem - out.0.0) rem_len timeout out.0.1 out.1,
      )

  verify-true :
      (buff : List ℕ) (n : ℕ)
      → verify buff n ≡ true
      → (2 ≤ n) × (get_or buff (n - 1) 0 ≡ crc8 (take (n - 1) buff))
  unfolding verify
  verify-true buff n h = (ground arith, ground arith)

  -- Whatever the device does, `comm_recv_message` returns 0 or the length of a message that
  -- stands at the start of the buffer: from 2 to 16 bytes, as many as its header says, the header
  -- one that an answer may have, and the last byte the CRC of the others.
  pub comm_recv_message_sound :
      (timeout : ℕ) (buff : List ℕ) (s : S) (n : ℕ)
      → (comm_recv_message dev timeout buff s).0.0 ≡ n
      → n ≢ 0
      → let buff' = (comm_recv_message dev timeout buff s).0.1 in
        (n ≡ header_decode buff' + 1)
        × (2 ≤ n)
        × (n ≤ 16)
        × (get_or buff' (n - 1) 0 ≡ crc8 (take (n - 1) buff'))
  unfolding comm_recv_message
  comm_recv_message_sound timeout buff s n e ne =
      let out₁ = comm_recv dev 0 1 timeout buff s in
      let len = header_decode out₁.0.1 in
      let out₂ = recv_rest dev len len len timeout out₁.0.1 out₁.1 in
      let same =
        header_decode-head out₂.0.1 out₁.0.1 (recv_rest-head len len len timeout out₁.0.1 out₁.1) in
      (
        ground (arith, same),
        ground (arith, verify-true out₂.0.1 (len + 1)),
        ground (arith, header_decode-le out₁.0.1),
        ground (arith, verify-true out₂.0.1 (len + 1)),
      )
