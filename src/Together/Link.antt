-- ===== src/Together/Link.antt =====
-- What the driver of OpenCTDriver/src/ifd/ifd-cardemu.c relies on when the firmware is at the other
-- end: requests are answered as the firmware's table says, and nothing is lost.
use open_pgpcard_emu.Base.{ℕ, ◌≡◌, refl, ◌∙◌, ap₂, List, [], ◌∷◌, ◌++◌, ℤ, pos, negsuc, length}
use open_pgpcard_emu.Device.{device_send, device_recv}
use open_pgpcard_emu.Line.Receive.{Delivers}
use open_pgpcard_emu.Cardemu.Session.{Host}
use open_pgpcard_emu.Firmware.Comm.{ReqType}
use open_pgpcard_emu.Firmware.React.{Node, react, frames}
use open_pgpcard_emu.Firmware.Receive.{request_frame, IsRequest, request_of}

-- `node` is the state of the firmware, `line` what it has sent and the driver has not read, and
-- `IsIdle` says that the firmware waits for a request.
pub record IsLinked {S : Type 0} (host : Host S) (node : S → Node) (line : S → List ℕ)
    (IsIdle : S → Type 0) : Type 0 where
  pub sends :
      (kind : ReqType) (payload : List ℕ) (s : S)
      → IsRequest kind payload
      → IsIdle s
      → let bytes = request_frame kind payload in
        let (r, t) = device_send host.device s bytes in
        let (answers, node') = react (node s) (request_of kind payload) in
        (r ≡ pos (length bytes)) × (node t ≡ node') × (line t ≡ line s ++ frames answers) × IsIdle t
  pub receives :
      (timeout b : ℕ) (rest : List ℕ) (s : S)
      → line s ≡ b ∷ rest
      → IsIdle s
      → let (r, bytes, t) = device_recv host.device s 1 timeout in
        (r ≡ pos 1) × (bytes ≡ b ∷ []) × (node t ≡ node s) × (line t ≡ rest) × IsIdle t
  pub silent :
      (timeout : ℕ) (s : S)
      → line s ≡ []
      → IsIdle s
      → let (r, bytes, t) = device_recv host.device s 1 timeout in
        (r ≡ negsuc 1) × (bytes ≡ []) × (node t ≡ node s) × (line t ≡ []) × IsIdle t
  pub random :
      (s : S)
      → IsIdle s
      → let t = (host.rand s).1 in (node t ≡ node s) × (line t ≡ line s) × IsIdle t

module _ {S : Type 0} (host : Host S) (node : S → Node) (line : S → List ℕ) (IsIdle : S → Type 0)
    (linked : IsLinked host node line IsIdle) where
  -- The firmware in this state, these bytes on the line.
  abbrev pub Stands : S → Node → List ℕ → Type 0
  Stands s n bytes = (node s ≡ n) × (line s ≡ bytes) × IsIdle s

  pub line-Delivers :
      (timeout : ℕ) (bytes rest : List ℕ) (n : Node) (s : S)
      → Stands s n (bytes ++ rest)
      → (t : S) × Delivers host.device timeout bytes s t × Stands t n rest
  line-Delivers timeout [] rest n s here = (s, refl, here)
  line-Delivers timeout (b ∷ bytes) rest n s (at, there, idle) =
      let (r, one, same, left, idle') = linked.receives timeout b (bytes ++ rest) s there idle in
      let u = (device_recv host.device s 1 timeout).2 in
      let (t, d, here) = line-Delivers timeout bytes rest n u (same ∙ at, left, idle') in
      (t, (u, ap₂ (λ (c : ℤ) (xs : List ℕ). (c, xs, u)) r one, d), here)
