-- ===== src/Firmware/Receive.antt =====
-- What `ReceiveRequest` of ArduinoCardEmu/comm_helper.cpp makes of a request on the line.
use open_pgpcard_emu.Base.{
  ℕ, suc, ◌+◌, ◌-◌, ◌≤◌, ◌≡◌, ◌≢◌, refl, ◌∙◌, sym, ap, ap₂, subst, true, false, List, [], ◌∷◌, ◌++◌,
  append-nil, append_assoc, arith, ltb, ◌==◌, bit_and, some, get_or, get_or-set_self, set, take,
  drop, length, length-append, take-append, drop-append, write_at, ◌||◌, ==_refl, ◌%◌, ◌^◌,
}
use open_pgpcard_emu.Base.Run.{Run, ok, ◌>>◌}
use open_pgpcard_emu.Base.Write.{write_at-zero}
use open_pgpcard_emu.Crc8.{crc8}
use open_pgpcard_emu.Frame.Build.{frame, header_of, get_or-append}
use open_pgpcard_emu.Firmware.Crc8 as FirmwareCrc
use open_pgpcard_emu.Firmware.Board.{Board, Stuck}
use open_pgpcard_emu.Firmware.Codes.{req-fields, to_req_type-req_code}
use open_pgpcard_emu.Firmware.Comm.{
  ReqType, Request, req_code, request_fits, checked, make_request, read_body, receive_body,
  read_header, after_fields, after_header, receive_request, wait_available,
}
use open_pgpcard_emu.Firmware.Wire.{IsWired, Does, bind-Does, wait_available-Does}

-- A message of a request.
abbrev pub request_frame : ReqType → List ℕ → List ℕ
request_frame kind payload = frame (header_of (req_code kind) (length payload)) payload

-- What the driver may send: the kind allows this many bytes of payload.
abbrev pub IsRequest : ReqType → List ℕ → Type 0
IsRequest kind payload =
    (length payload ≤ 14) × (request_fits (req_code kind) (length payload + 1) ≡ true)

abbrev pub request_of : ReqType → List ℕ → Request
request_of kind payload = record { req_type = kind; pl_len = length payload; payload = payload }

-- The buffer with the message at its start passes the check, and gives the request.
pub checked-frame :
    (kind : ReqType) (payload rest : List ℕ)
    → checked (req_code kind) (length payload + 1) (some (request_frame kind payload ++ rest))
      ≡ request_of kind payload
unfolding checked make_request
checked-frame kind payload rest =
    ap (λ m. checked (req_code kind) (n + 1) (some m)) (append_assoc bytes (c ∷ []) rest)
    ∙ rw (passes, checked)
        (ap (make_request (req_code kind) (payload ++ c ∷ rest)) (omega arith)
          ∙ ap₂ (λ (t : ReqType) (p : List ℕ). of_parts t p) (to_req_type-req_code kind)
              (take-append payload (c ∷ rest)))
  where
    n : ℕ
    n = length payload

    bytes : List ℕ
    bytes = header_of (req_code kind) n ∷ payload

    c : ℕ
    c = crc8 bytes

    of_parts : ReqType → List ℕ → Request
    of_parts t p = record { req_type = t; pl_len = n; payload = p }

    index : 1 + (n + 1) - 1 ≡ length bytes
    index = omega arith

    passes :
        (get_or (bytes ++ c ∷ rest) (1 + (n + 1) - 1) 0
          == FirmwareCrc.crc8 (take (1 + (n + 1) - 1) (bytes ++ c ∷ rest)))
        ≡ true
    passes =
        ap₂ ◌==◌ (ap (λ k. get_or (bytes ++ c ∷ rest) k 0) index ∙ get_or-append bytes c rest) (
          ap (λ k. FirmwareCrc.crc8 (take k (bytes ++ c ∷ rest))) index
          ∙ ap FirmwareCrc.crc8 (take-append bytes (c ∷ rest))
          ∙ FirmwareCrc.crc8-crc8 bytes)
        ∙ ==_refl c

module _ {S : Type 0} (board : Board S) (inbox outbox : S → List ℕ)
    (wired : IsWired board inbox outbox) where
  read_header-Does :
      (s : S) (b : ℕ) (rest : List ℕ)
      → inbox s ≡ b ∷ rest
      → Does inbox outbox (read_header board) s (set board.stack 0 b) rest []
  unfolding read_header
  read_header-Does s b rest same =
      let (e, i, o) = wired.reads 1 s (omega (arith, ap length same)) in
      (
        ap (λ bytes. ok (write_at board.stack 0 bytes)) (e ∙ ap (take 1) same),
        i ∙ ap (drop 1) same,
        o ∙ sym (append-nil (outbox s)),
      )

  -- All the bytes of the body are there: one round reads them.
  receive_body-Does :
      (rounds req : ℕ) (body : List ℕ) (buff : List ℕ) (s : S) (rest : List ℕ)
      → body ≢ []
      → length body ≤ 15
      → inbox s ≡ body ++ rest
      → Does inbox outbox
          (receive_body board (suc (suc rounds)) req (length body) buff)
          s
          (checked req (length body) (some (write_at buff 1 body)))
          rest
          []
  unfolding receive_body
  receive_body-Does rounds req [] buff s rest some_byte short same = absurd (some_byte refl)
  receive_body-Does rounds req (b ∷ bs) buff s rest some_byte short same =
      let n = suc (length bs) in
      let t = (board.millis s).1 in
      let there : inbox t ≡ b ∷ bs ++ rest = (wired.ticks s).0 ∙ same in
      let enough : n ≤ length (inbox t) = omega (arith, ap length there, length-append bs rest) in
      let (e, i, o) = wired.reads n t enough in
      let (i', o') = wired.ticks (board.read_bytes n t).1 in
      let got : (board.read_bytes n t).0 ≡ b ∷ bs =
        e ∙ ap (take n) there ∙ take-append (b ∷ bs) rest in
      let in_time : ltb 500
            (((board.millis (board.read_bytes n t).1).0 + 2 ^ 32 - (board.millis s).0) % 2 ^ 32)
          ≡ false =
        ground (arith, wired.prompt n s (omega (arith, ap length same, length-append bs rest))) in
      let none_left : (n + 256 - length (board.read_bytes n t).0 % 256) % 256 ≡ 0 =
        omega (arith, ap length got, short) in
      rw (in_time, read_body, receive_body)
        (rw (none_left, read_body, receive_body)
          (rw (got, read_body, receive_body)
            (
              ap (λ (k : ℕ). ok (checked req n (some (write_at buff k (b ∷ bs))))) {x = 1 + (n - n)}
                  {y = 1} (omega arith),
              i' ∙ i ∙ ap (drop n) there ∙ drop-append (b ∷ bs) rest,
              o' ∙ o ∙ (wired.ticks s).1 ∙ sym (append-nil (outbox s)),
            )))

  -- The part of `ReceiveRequest` behind the header, for a header that a request may have.
  after_header-frame :
      (rounds : ℕ) (kind : ReqType) (payload : List ℕ) (s : S) (rest : List ℕ)
      → IsRequest kind payload
      → length board.stack ≡ 16
      → let header = header_of (req_code kind) (length payload) in
        inbox s ≡ (payload ++ crc8 (header ∷ payload) ∷ []) ++ rest
        → Does inbox outbox
            (after_header board (suc (suc rounds)) (set board.stack 0 header))
            s
            (request_of kind payload)
            rest
            []
  unfolding after_header
  after_header-frame rounds kind payload s rest (short, fits) room same =
      subst
        (λ (run : Run S Stuck Request). Does inbox outbox run s (request_of kind payload) rest [])
        (sym fields)
        (rw (in_bounds, after_fields)
          (rw (fits, after_fields)
            (subst
              (λ (k : ℕ).
                Does inbox outbox (receive_body board (suc (suc rounds)) (req_code kind) k buff) s
                  (request_of kind payload) rest [])
              len
              (subst
                (λ (r : Request).
                  Does inbox outbox
                    (receive_body board (suc (suc rounds)) (req_code kind) (length body) buff) s r
                    rest [])
                whole
                (receive_body-Does rounds (req_code kind) body buff s rest some_byte
                  (omega (arith, len)) same)))))
    where
      n : ℕ
      n = length payload

      header : ℕ
      header = header_of (req_code kind) n

      body : List ℕ
      body = payload ++ crc8 (header ∷ payload) ∷ []

      buff : List ℕ
      buff = set board.stack 0 header

      len : length body ≡ n + 1
      len = length-append payload (crc8 (header ∷ payload) ∷ [])

      fields :
          after_header board (suc (suc rounds)) buff
          ≡ after_fields board (suc (suc rounds)) (n + 1) (req_code kind) buff
      fields =
          ap (λ h. after_fields board (suc (suc rounds)) (bit_and h 0x1F) (bit_and h 0xE0) buff)
            (get_or-set_self board.stack 0 header 0 (omega arith))
          ∙ ap₂ (λ (k r : ℕ). after_fields board (suc (suc rounds)) k r buff)
              (req-fields kind n short).0 (req-fields kind n short).1

      in_bounds : (ltb (n + 1) 1 || ltb 15 (n + 1)) ≡ false
      in_bounds = ground arith

      some_byte : body ≢ []
      some_byte none = omega (arith, len, ap length none)

      whole :
          checked (req_code kind) (length body) (some (write_at buff 1 body))
          ≡ request_of kind payload
      whole =
          ap₂ (λ (k : ℕ) (b : List ℕ). checked (req_code kind) k (some b)) len
            (write_at-zero board.stack (header ∷ body) (omega (arith, len)))
          ∙ checked-frame kind payload (drop (length (header ∷ body)) board.stack)

  -- A request that the driver may send is received as it is, whatever follows it on the line.
  pub receive_request-frame :
      (patience rounds : ℕ) (kind : ReqType) (payload : List ℕ) (s : S) (rest : List ℕ)
      → IsRequest kind payload
      → length board.stack ≡ 16
      → inbox s ≡ request_frame kind payload ++ rest
      → Does inbox outbox
          (receive_request board (suc patience) (suc (suc rounds)))
          s
          (request_of kind payload)
          rest
          []
  unfolding receive_request
  receive_request-frame patience rounds kind payload s rest request room same =
      bind-Does inbox outbox (wait_available board (suc patience) >> read_header board)
        (after_header board (suc (suc rounds))) s (set board.stack 0 header)
        (request_of kind payload) (body ++ rest) rest [] []
        (bind-Does inbox outbox (wait_available board (suc patience)) (λ _. read_header board) s tt
          (set board.stack 0 header) (header ∷ body ++ rest) (body ++ rest) [] []
          (wait_available-Does inbox outbox board wired patience s (header ∷ body ++ rest) same
            (λ none. cc))
          (λ t. read_header-Does t header (body ++ rest)))
        (λ t. after_header-frame rounds kind payload t rest request room)
    where
      header : ℕ
      header = header_of (req_code kind) (length payload)

      body : List ℕ
      body = payload ++ crc8 (header ∷ payload) ∷ []
