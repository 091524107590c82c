-- ===== src/Together/Exchange.antt =====
-- One request of the driver of OpenCTDriver/src/ifd/ifd-cardemu.c and its answer, over a line with
-- the firmware at the other end.
use open_pgpcard_emu.Base.{
  ℕ, ◌+◌, ◌≤◌, ◌≡◌, refl, ◌∙◌, sym, ap, ap₂, subst, true, false, List, [], ◌∷◌, ◌++◌, arith, ltb,
  ◌||◌, ◌==◌, ==_refl, if◌then◌else◌, ℤ, take, drop, length, length-append, take-append,
}
use open_pgpcard_emu.Base.Slice.{slice, slice-zero, length-slice}
use open_pgpcard_emu.Base.Write.{take-slice, drop-slice}
use open_pgpcard_emu.Crc8.{crc8}
use open_pgpcard_emu.Device.{device_send}
use open_pgpcard_emu.Frame.{inside, message, answer_fits, header_decode, get_ans_mask}
use open_pgpcard_emu.Frame.Build.{frame, header_of, message-frame}
use open_pgpcard_emu.Line.{comm_send, is_count, comm_recv_message}
use open_pgpcard_emu.Line.Receive.{comm_recv_message-round_trip, comm_recv_message-leaves}
use open_pgpcard_emu.Cardemu.Session.{Host, Session, send_message}
use open_pgpcard_emu.Firmware.Answer.{answer_frame}
use open_pgpcard_emu.Firmware.Codes.{ans-fields}
use open_pgpcard_emu.Firmware.Comm.{ReqType, req_code, AnsType, ans_code}
use open_pgpcard_emu.Firmware.React.{Node, react, frames}
use open_pgpcard_emu.Firmware.Receive.{request_frame, IsRequest, request_of}
use open_pgpcard_emu.Together.Link.{IsLinked, Stands, line-Delivers}

-- The payload that the message in a buffer carries.
pub payload-kept :
    (n : ℕ) (header c : ℕ) (payload buff : List ℕ)
    → n + 2 ≤ length buff
    → length payload ≡ n
    → take (n + 2) buff ≡ header ∷ payload ++ c ∷ []
    → slice 1 n buff ≡ payload
payload-kept n header c payload buff room len e =
    sym (take-slice 1 n (n + 1) buff (omega arith))
    ∙ ap (take n) (
        ap (λ k. slice 1 k buff) (omega arith)
        ∙ sym (drop-slice 0 1 (n + 2) buff (omega arith))
        ∙ ap (drop 1) (slice-zero (n + 2) buff room ∙ e))
    ∙ ap (λ k. take k (payload ++ c ∷ [])) (sym len)
    ∙ take-append payload (c ∷ [])

module _ {S : Type 0} (host : Host S) (node : S → Node) (line : S → List ℕ) (IsIdle : S → Type 0)
    (linked : IsLinked host node line IsIdle) where
  -- The firmware, the line, and a message buffer of 16 bytes on the stack of the driver.
  abbrev pub Meets : Session S → Node → List ℕ → Type 0
  Meets s n bytes = Stands host node line IsIdle linked s.port n bytes × (length s.buff ≡ 16)

  pub comm_send-linked :
      (kind : ReqType) (payload buff : List ℕ) (len : ℕ) (n : Node) (bytes : List ℕ) (port : S)
      → Stands host node line IsIdle linked port n bytes
      → IsRequest kind payload
      → take len buff ≡ request_frame kind payload
      → length payload + 2 ≡ len
      → let out = comm_send host.device buff len port in
        let reacted = react n (request_of kind payload) in
        (out.0 ≡ len)
        × Stands host node line IsIdle linked out.1 reacted.1 (bytes ++ frames reacted.0)
  unfolding comm_send is_count
  comm_send-linked kind payload buff len n bytes port (at, there, idle) request whole size =
      let (r, at', there', idle') = linked.sends kind payload port request idle in
      let len-frame : length (request_frame kind payload) ≡ len = omega (arith, frame_size, size) in
      let counted : is_count host.device
            (device_send host.device port (request_frame kind payload)).0 len
          ≡ true =
        ap (λ (k : ℤ). is_count host.device k len) r
        ∙ ap (λ (k : ℕ). k == len) len-frame
        ∙ ==_refl len in
      rw (whole, comm_send)
        (
          rw (counted, comm_send) refl,
          (
            at' ∙ ap (λ m. (react m (request_of kind payload)).1) at,
            there'
                ∙ ap₂ (λ (b : List ℕ) (m : Node). b ++ frames (react m (request_of kind payload)).0)
                    there at,
            idle',
          ),
        )
    where
      header : ℕ
      header = header_of (req_code kind) (length payload)

      frame_size : length (request_frame kind payload) ≡ length payload + 2
      frame_size = omega (arith, length-append (header ∷ payload) (crc8 (header ∷ payload) ∷ []))

  pub send_message-linked :
      (kind : ReqType) (pl_len : ℕ) (n : Node) (bytes : List ℕ) (s : Session S)
      → Meets s n bytes
      → pl_len ≤ 14
      → IsRequest kind (slice 1 pl_len s.buff)
      → let out = send_message host (req_code kind) (inside 1) pl_len s in
        let reacted = react n (request_of kind (slice 1 pl_len s.buff)) in
        (out.0 ≡ (pl_len + 2, pl_len + 2))
        × Meets out.1 reacted.1 (bytes ++ frames reacted.0)
        × (slice 1 pl_len out.1.buff ≡ slice 1 pl_len s.buff)
  unfolding send_message
  send_message-linked kind pl_len n bytes s (here, room) short request =
      let payload = slice 1 pl_len s.buff in
      let len-payload : length payload ≡ pl_len = length-slice 1 pl_len s.buff in
      let built = message-frame (req_code kind) (inside 1) pl_len s.buff short (omega arith) in
      let sent =
        comm_send-linked kind payload (message (req_code kind) (inside 1) pl_len s.buff).1
          (message (req_code kind) (inside 1) pl_len s.buff).0 n bytes s.port here request
          (ap (λ k. take k (message (req_code kind) (inside 1) pl_len s.buff).1) built.0
            ∙ built.1
            ∙ ap (λ k. frame (header_of (req_code kind) k) payload) (sym len-payload))
          (omega (arith, built.0, len-payload)) in
      (
        ap₂ (λ (a b : ℕ). (a, b)) built.0 (sent.0 ∙ built.0),
        (sent.1, built.2 ∙ room),
        payload-kept pl_len (header_of (req_code kind) pl_len) _ payload
            (message (req_code kind) (inside 1) pl_len s.buff).1 (omega (arith, built.2))
            len-payload built.1,
      )

  -- An answer that the driver's header check allows.
  abbrev pub IsAnswer : AnsType → List ℕ → Type 0
  IsAnswer ans payload =
      (length payload ≤ 14) × (answer_fits (ans_code ans) (length payload + 1) ≡ true)

  header_decode-answer :
      (ans : AnsType) (payload : List ℕ)
      → IsAnswer ans payload
      → header_decode (header_of (ans_code ans) (length payload) ∷ []) ≡ length payload + 1
  unfolding header_decode get_ans_mask
  header_decode-answer ans payload (short, fits) =
      ap₂ (λ (k m : ℕ). if ltb k 1 || ltb 15 k then 0 else if answer_fits m k then k else 0)
        (ans-fields ans (length payload) short).0 (ans-fields ans (length payload) short).1
      ∙ rw in_bounds (rw fits refl)
    where
      in_bounds : (ltb (length payload + 1) 1 || ltb 15 (length payload + 1)) ≡ false
      in_bounds = ground arith

  pub comm_recv_message-linked :
      (timeout : ℕ) (ans : AnsType) (payload rest : List ℕ) (n : Node) (buff : List ℕ) (port : S)
      → Stands host node line IsIdle linked port n (answer_frame ans payload ++ rest)
      → IsAnswer ans payload
      → length buff ≡ 16
      → let out = comm_recv_message host.device timeout buff port in
        (out.0 ≡ (length payload + 2, answer_frame ans payload ++ drop (length payload + 2) buff))
        × Stands host node line IsIdle linked out.1 n rest
  comm_recv_message-linked timeout ans payload rest n buff port here answer room =
      let header = header_of (ans_code ans) (length payload) in
      let (t, delivers, there) =
        line-Delivers host node line IsIdle linked timeout (answer_frame ans payload) rest n port
          here in
      let decodes = header_decode-answer ans payload answer in
      let fits : length payload + 2 ≤ length buff = omega (arith, answer.0) in
      (
        comm_recv_message-round_trip host.device timeout header payload buff port t fits decodes
            delivers,
        subst (λ u. Stands host node line IsIdle linked u n rest)
            (sym (
              comm_recv_message-leaves host.device timeout header payload buff port t fits decodes
                delivers))
            there,
      )
