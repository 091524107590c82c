-- ===== src/Line/Receive.antt =====
-- How a message on the line gets through `comm_recv_message` of ifd-cardemu.c, and a damaged one
-- does not.
use open_pgpcard_emu.Base.{
  ℕ, zero, suc, ◌+◌, ◌-◌, ◌≤◌, ◌≡◌, ◌≢◌, refl, ◌∙◌, sym, ap, ap₂, List, [], ◌∷◌, ◌++◌, arith, Bool,
  if◌then◌else◌, set, drop, get_or-set_self, length, length-append, append_assoc, write_at, pos,
}
use open_pgpcard_emu.Base.Write.{write_at-zero}
use open_pgpcard_emu.Crc8.{crc8}
use open_pgpcard_emu.Device.{DeviceOps, device_recv}
use open_pgpcard_emu.Frame.{header_decode, verify}
use open_pgpcard_emu.Frame.Build.{frame, verify-frame, verify-exact}
use open_pgpcard_emu.Line.{recv_bytes, comm_recv, recv_rest, comm_recv_message}
use open_pgpcard_emu.Line.Sound.{header_decode-head}

-- A pair, where its type is not known otherwise.
abbrev pair : ℕ → List ℕ → ℕ × List ℕ
pair a b = (a, b)

append-ne-nil : (xs : List ℕ) (c : ℕ) → xs ++ c ∷ [] ≢ []
append-ne-nil [] c e = cc
append-ne-nil (x ∷ xs) c e = cc

length-ne-zero : (xs : List ℕ) → xs ≢ [] → length xs ≢ 0
length-ne-zero [] h = absurd (h refl)
length-ne-zero (x ∷ xs) h = omega arith

module _ {S : Type 0} (dev : DeviceOps S) where
  -- The device gives these bytes, one for each call, and goes from one state to the other.
  abbrev pub Delivers : ℕ → List ℕ → S → S → Type 0
  Delivers timeout [] s t = s ≡ t
  Delivers timeout (b ∷ bytes) s t =
      (u : S) × (device_recv dev s 1 timeout ≡ (pos 1, b ∷ [], u)) × Delivers timeout bytes u t

  recv_bytes-step :
      (n i base timeout b : ℕ) (buff : List ℕ) (s u : S)
      → device_recv dev s 1 timeout ≡ (pos 1, b ∷ [], u)
      → recv_bytes dev (suc n) i base timeout buff s
        ≡ recv_bytes dev n (suc i) base timeout (set buff (base + i) b) u
  unfolding recv_bytes
  recv_bytes-step n i base timeout b buff s u e = rw (e, recv_bytes) (rw e)

  recv_bytes-delivered :
      (bytes : List ℕ) (i base timeout : ℕ) (buff : List ℕ) (s t : S)
      → Delivers timeout bytes s t
      → recv_bytes dev (length bytes) i base timeout buff s
        ≡ ((i + length bytes, write_at buff (base + i) bytes), t)
  unfolding recv_bytes
  recv_bytes-delivered [] i base timeout buff s t d = ground arith
  recv_bytes-delivered (b ∷ bytes) i base timeout buff s t (u, e, d) =
      recv_bytes-step (length bytes) i base timeout b buff s u e
      ∙ (recv_bytes-delivered bytes (suc i) base timeout (set buff (base + i) b) u t d
          ∙ ap₂ (λ (k j : ℕ). ((k, write_at (set buff (base + i) b) j bytes), t)) (omega arith)
              (omega arith))

  recv_rest-zero :
      (fuel rem_len timeout : ℕ) (buff : List ℕ) (s : S)
      → recv_rest dev fuel 0 rem_len timeout buff s ≡ ((0, buff), s)
  unfolding recv_rest
  recv_rest-zero zero rem_len timeout buff s = refl
  recv_rest-zero (suc fuel) rem_len timeout buff s = refl

  pub comm_recv-delivered :
      (bytes : List ℕ) (base timeout : ℕ) (buff : List ℕ) (s t : S)
      → Delivers timeout bytes s t
      → comm_recv dev base (length bytes) timeout buff s
        ≡ ((length bytes, write_at buff base bytes), t)
  unfolding comm_recv
  comm_recv-delivered bytes base timeout buff s t d =
      recv_bytes-delivered bytes 0 base timeout buff s t d
      ∙ ap₂ (λ (k j : ℕ). ((k, write_at buff j bytes), t)) (omega arith) (omega arith)

  recv_rest-delivered :
      (body : List ℕ) (timeout : ℕ) (buff : List ℕ) (s t : S)
      → body ≢ []
      → Delivers timeout body s t
      → recv_rest dev (length body) (length body) (length body) timeout buff s
        ≡ ((0, write_at buff 1 body), t)
  unfolding recv_rest
  recv_rest-delivered [] timeout buff s t some_body d = absurd (some_body refl)
  recv_rest-delivered (b ∷ bytes) timeout buff s t some_body d =
      let n = length bytes in
      let base : 1 + (suc n - suc n) ≡ 1 = omega arith in
      let none_left : suc n - suc n ≡ 0 = omega arith in
      let got = comm_recv-delivered (b ∷ bytes) 1 timeout buff s t d in
      ground (
        arith,
        base,
        none_left,
        got,
        recv_rest-zero n (suc n) timeout (write_at buff 1 (b ∷ bytes)) t,
      )

  -- The end of `comm_recv_message`, with the whole message in the buffer.
  verify-written :
      (bytes : List ℕ) (c : ℕ) (buff : List ℕ)
      → length bytes + 1 ≤ length buff
      → verify (write_at buff 0 (bytes ++ c ∷ [])) (length bytes + 1)
        ≡ verify (bytes ++ c ∷ drop (length bytes + 1) buff) (length bytes + 1)
  verify-written bytes c buff fits =
      ap (λ b. verify b (length bytes + 1))
        (write_at-zero buff (bytes ++ c ∷ []) (omega (arith, length-append bytes (c ∷ [])))
          ∙ append_assoc bytes (c ∷ []) (drop (length (bytes ++ c ∷ [])) buff)
          ∙ ap (λ k. bytes ++ c ∷ drop k buff) (omega (arith, length-append bytes (c ∷ []))))

  -- A message with a valid header, delivered whole: the result is that of the check of the CRC.
  pub comm_recv_message-delivered :
      (timeout : ℕ) (header : ℕ) (body : List ℕ) (buff : List ℕ) (s t : S)
      → 1 ≤ length buff
      → header_decode (header ∷ []) ≡ length body
      → body ≢ []
      → Delivers timeout (header ∷ body) s t
      → let buff' = write_at buff 0 (header ∷ body) in
        comm_recv_message dev timeout buff s
        ≡ (((if verify buff' (length body + 1) then length body + 1 else 0), buff'), t)
  unfolding comm_recv_message
  comm_recv_message-delivered timeout header body buff s t roomy decodes some_body (u, e, d) =
      let n = length body in
      let buff₁ = set buff 0 header in
      ground (
        arith,
        comm_recv-delivered (header ∷ []) 0 timeout buff s u (u, e, refl),
        header_decode-head buff₁ (header ∷ []) (get_or-set_self buff 0 header 0 (omega arith)),
        decodes,
        length-ne-zero body some_body,
        recv_rest-delivered body timeout buff₁ u t some_body d,
      )

  -- The same, with the last byte apart.
  delivered_with_last :
      (timeout header : ℕ) (payload : List ℕ) (c : ℕ) (buff : List ℕ) (s t : S)
      → length payload + 2 ≤ length buff
      → header_decode (header ∷ []) ≡ length payload + 1
      → Delivers timeout (header ∷ payload ++ c ∷ []) s t
      → let whole = header ∷ payload ++ c ∷ drop (length payload + 2) buff in
        (comm_recv_message dev timeout buff s).0
        ≡ ((if verify whole (length (header ∷ payload) + 1) then length payload + 2 else 0), whole)
  delivered_with_last timeout header payload c buff s t roomy decodes d =
      let body = payload ++ c ∷ [] in
      let len : length body ≡ length payload + 1 = length-append payload (c ∷ []) in
      ap (λ (out : (ℕ × List ℕ) × S). out.0)
        (comm_recv_message-delivered timeout header body buff s t (omega arith) (decodes ∙ sym len)
          (append-ne-nil payload c) d)
      ∙ ap₂ (λ (k : ℕ) (b : List ℕ). pair (if verify b k then k else 0) b) {x = length body + 1}
          {y = length (header ∷ payload) + 1} (omega (arith, len))
          (write_at-zero buff (header ∷ body) (omega (arith, len))
            ∙ append_assoc (header ∷ payload) (c ∷ []) (drop (length (header ∷ body)) buff)
            ∙ ap (λ k. header ∷ payload ++ c ∷ drop k buff) {x = length (header ∷ body)}
                {y = length payload + 2} (omega (arith, len)))
      ∙ ap (λ (k : ℕ). pair (if verify whole (length (header ∷ payload) + 1) then k else 0) whole)
          {x = length (header ∷ payload) + 1} {y = length payload + 2} (omega arith)
    where
      whole : List ℕ
      whole = header ∷ payload ++ c ∷ drop (length payload + 2) buff

  -- A message that the emulator sends is received whole: if the device delivers a header that an
  -- answer may have, as many further bytes as it says, and the last is the CRC of the others, then
  -- `comm_recv_message` returns the length of the message, and the buffer starts with it.
  pub comm_recv_message-round_trip :
      (timeout : ℕ) (header : ℕ) (payload : List ℕ) (buff : List ℕ) (s t : S)
      → length payload + 2 ≤ length buff
      → header_decode (header ∷ []) ≡ length payload + 1
      → Delivers timeout (frame header payload) s t
      → (comm_recv_message dev timeout buff s).0
        ≡ (length payload + 2, frame header payload ++ drop (length payload + 2) buff)
  comm_recv_message-round_trip timeout header payload buff s t roomy decodes d =
      delivered_with_last timeout header payload (crc8 (header ∷ payload)) buff s t roomy decodes d
      ∙ ap₂ (λ (ok : Bool) (b : List ℕ). pair (if ok then length payload + 2 else 0) b)
          (verify-frame (header ∷ payload) (drop (length payload + 2) buff) (omega arith))
          (sym (
            append_assoc (header ∷ payload) (crc8 (header ∷ payload) ∷ [])
              (drop (length payload + 2) buff)))

  -- A message whose CRC byte is not the CRC of the bytes before it is refused: the result is 0.
  pub comm_recv_message-refuses :
      (timeout header : ℕ) (payload : List ℕ) (c : ℕ) (buff : List ℕ) (s t : S)
      → length payload + 2 ≤ length buff
      → header_decode (header ∷ []) ≡ length payload + 1
      → Delivers timeout (header ∷ payload ++ c ∷ []) s t
      → c ≢ crc8 (header ∷ payload)
      → (comm_recv_message dev timeout buff s).0.0 ≡ 0
  comm_recv_message-refuses timeout header payload c buff s t roomy decodes d ne =
      ap (λ (out : ℕ × List ℕ). out.0)
        (delivered_with_last timeout header payload c buff s t roomy decodes d)
      ∙ ap (λ (ok : Bool). if ok then length payload + 2 else 0)
          (verify-exact (header ∷ payload) (drop (length payload + 2) buff) c ne)

  -- The device is left behind the message.
  pub comm_recv_message-leaves :
      (timeout header : ℕ) (payload : List ℕ) (buff : List ℕ) (s t : S)
      → length payload + 2 ≤ length buff
      → header_decode (header ∷ []) ≡ length payload + 1
      → Delivers timeout (frame header payload) s t
      → (comm_recv_message dev timeout buff s).1 ≡ t
  comm_recv_message-leaves timeout header payload buff s t roomy decodes d =
      let c = crc8 (header ∷ payload) in
      ap (λ (out : (ℕ × List ℕ) × S). out.1)
        (comm_recv_message-delivered timeout header (payload ++ c ∷ []) buff s t (omega arith)
          (decodes ∙ sym (length-append payload (c ∷ []))) (append-ne-nil payload c) d)
