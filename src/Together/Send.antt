-- ===== src/Together/Send.antt =====
-- `cardemu_send` of OpenCTDriver/src/ifd/ifd-cardemu.c with the firmware at the other end.
use open_pgpcard_emu.Base.{
  ℕ, ◌+◌, ◌*◌, ◌/◌, ◌%◌, ◌^◌, ◌≤◌, ◌<◌, ◌≡◌, ◌≢◌, refl, ◌∙◌, sym, ap, ap₂, subst, true, false, List,
  [], ◌∷◌, arith, ltb, ◌==◌, ==_iff, bit_and, bit_or, length, length-set, set, get_or-set_self,
  get_or-set_ne, pos,
}
use open_pgpcard_emu.Base.Bits.{all_below, all_below_sound}
use open_pgpcard_emu.Base.Digits.{bit_and-byte}
use open_pgpcard_emu.Base.Run.{ok, err, ◌>>=◌, ◌>>◌, require}
use open_pgpcard_emu.Base.Slice.{slice}
use open_pgpcard_emu.Device.{error_generic}
use open_pgpcard_emu.Frame.{ans_ok, answer_fits}
use open_pgpcard_emu.Cardemu.Session.{Host, Session, outer, begin, poke}
use open_pgpcard_emu.Cardemu.Resync.{resync}
use open_pgpcard_emu.Cardemu.Retry.{Outcome, exhausted, request, receive, answer}
use open_pgpcard_emu.Cardemu.Reset.{Reply, returned}
use open_pgpcard_emu.Cardemu.Transmit.{
  encode_uint16, command_try, send_packages, send_try, after_data, finish, send, commit_timeout,
}
use open_pgpcard_emu.Firmware.Comm.{
  card_send, card_commit, req_code, ok_answer, resync_answer, ans_code, request_fits,
}
use open_pgpcard_emu.Firmware.Loop.{Globals}
use open_pgpcard_emu.Firmware.React.{
  Mode, in_loop, in_resync, Node, Answer, bare, react, frames, announced,
}
use open_pgpcard_emu.Together.Link.{IsLinked, Stands}
use open_pgpcard_emu.Together.Exchange.{Meets}
use open_pgpcard_emu.Together.Steps.{Comes, Yields, bind-Comes}
use open_pgpcard_emu.Together.Commands.{request-Yields, reply-Comes, retry-done, retry-again}
use open_pgpcard_emu.Together.Packages.{send-IsRequest, send_packages-Yields}
use open_pgpcard_emu.Together.Status.{ask-Yields}
use open_pgpcard_emu.Together.Resync.{resync-succeeds}

-- The two bytes of a length, joined again.
join_table :
    all_below 256 (λ a. all_below 256 (λ b. bit_or a (b * 256) % 2 ^ 16 == a + b * 256)) ≡ true
unfolding all_below
join_table = refl

join : (a b : ℕ) → a < 256 → b < 256 → bit_or a (b * 256) % 2 ^ 16 ≡ a + b * 256
join a b ha hb = (==_iff _ _).0 (
    all_below_sound 256 (λ k. bit_or a (k * 256) % 2 ^ 16 == a + k * 256) b
      (all_below_sound 256 (λ k. all_below 256 (λ m. bit_or k (m * 256) % 2 ^ 16 == k + m * 256)) a
        join_table ha)
      hb)

abbrev length_bytes : ℕ → List ℕ
length_bytes n = bit_and n 0xFF ∷ bit_and (n / 256) 0xFF ∷ []

announced-length_bytes : (n : ℕ) → n < 65536 → announced (length_bytes n) ≡ n
announced-length_bytes n small =
    ap₂ (λ (a b : ℕ). bit_or a (b * 256) % 2 ^ 16) (bit_and-byte n) (bit_and-byte (n / 256))
    ∙ join (n % 256) (n / 256 % 256) (omega arith) (omega arith)
    ∙ omega arith

encoded :
    (n : ℕ) (buff : List ℕ)
    → length buff ≡ 16
    → slice 1 2 (set (set buff 1 (bit_and n 0xFF)) 2 (bit_and (n / 256) 0xFF)) ≡ length_bytes n
unfolding slice
encoded n buff room =
    let lo = bit_and n 0xFF in
    let hi = bit_and (n / 256) 0xFF in
    ap₂ (λ (a b : ℕ). a ∷ b ∷ [])
      (get_or-set_ne (set buff 1 lo) 2 1 hi 0 (omega arith)
        ∙ get_or-set_self buff 1 lo 0 (omega arith))
      (get_or-set_self (set buff 1 lo) 2 hi 0 (omega (arith, length-set buff 1 lo)))

-- A pair, where its type is not known otherwise.
abbrev reacted : List Answer → Node → List Answer × Node
reacted answers n = (answers, n)

module _ {S : Type 0} (host : Host S) (node : S → Node) (line : S → List ℕ) (IsIdle : S → Type 0)
    (linked : IsLinked host node line IsIdle) (room : length host.stack ≡ 16) where
  abbrev In : Mode → ℕ → ℕ → Session S → Type 0
  In mode st wp t =
      Meets host node line IsIdle linked t
        (record { mode = mode; globals = record { status = st; write_pending = wp } }) []

  send_try-Yields :
      (bytes : List ℕ) (st : ℕ) (s : Session S)
      → In in_loop st 0 s
      → 1 ≤ length bytes
      → length bytes ≤ 65535
      → Yields (send_try host bytes) s tt (In in_loop st (length bytes))
  unfolding send_try encode_uint16 poke req_code ans_code answer_fits react
  send_try-Yields bytes st s (here, size) some_byte few =
      let n = length bytes in
      ask-Yields host node line IsIdle linked room card_send 2 (length_bytes n) ok_answer
        (record { status = st; write_pending = 0 }) (record { status = st; write_pending = n })
        (encode_uint16 host n s)
        (λ ans. require (ans == ans_ok) outer >> send_packages host n bytes) tt
        (
          here,
          length-set (set s.buff 1 (bit_and n 0xFF)) 2 (bit_and (n / 256) 0xFF)
              ∙ length-set s.buff 1 (bit_and n 0xFF)
              ∙ size,
        )
        (omega arith) (encoded n s.buff size)
        (send-IsRequest (length_bytes n) (omega arith) (omega arith)) (omega arith, refl)
        (ap
          (λ (k : ℕ).
            reacted (bare ok_answer)
              (record { mode = in_loop; globals = record { status = st; write_pending = k } }))
          (announced-length_bytes n (omega arith)))
        (λ t quiet.
          send_packages-Yields host node line IsIdle linked n bytes st n t quiet (omega arith)
            (omega arith))

  refused-Comes :
      (st wp : ℕ) (s : Session S)
      → In in_loop st wp s
      → wp ≢ 0
      → Comes (command_try host 0x60 commit_timeout) s (err outer) (In (in_resync 0) st 0)
  unfolding command_try req_code ans_code answer_fits request_fits react slice
  refused-Comes st wp s here announced_bytes =
      let n : Node = record {
        mode = in_loop;
        globals = record { status = st; write_pending = wp };
      } in
      let n' : Node = record {
        mode = in_resync 0;
        globals = record { status = st; write_pending = 0 };
      } in
      let more : ltb 0 wp ≡ true = ground arith in
      bind-Comes (request host outer 0x60 0)
        (λ _.
          receive host outer commit_timeout
          >> (answer host >>= λ ans. require (ans == ans_ok) outer))
        s tt (err outer)
        (λ t. Meets host node line IsIdle linked t n' (frames (bare resync_answer)))
        (In (in_resync 0) st 0)
        (request-Yields host node line IsIdle linked outer card_commit 0 [] n n'
          (bare resync_answer) [] s here (omega arith) refl (omega arith, refl) (rw more refl))
        (λ t there.
          reply-Comes host node line IsIdle linked outer commit_timeout resync_answer n' t
            (λ ans. require (ans == ans_ok) outer) (err outer) (In (in_resync 0) st 0) there
            (omega arith, refl) (λ u quiet. (refl, quiet)))

  commit-Yields :
      (st : ℕ) (s : Session S)
      → In in_loop st 0 s
      → Yields (command_try host 0x60 commit_timeout) s tt (In in_loop st 0)
  unfolding command_try req_code ans_code answer_fits request_fits react slice
  commit-Yields st s here =
      let g : Globals = record { status = st; write_pending = 0 } in
      bind-Comes (request host outer 0x60 0)
        (λ _.
          receive host outer commit_timeout
          >> (answer host >>= λ ans. require (ans == ans_ok) outer))
        s tt (ok tt)
        (λ t.
          Meets host node line IsIdle linked t (record { mode = in_loop; globals = g })
            (frames (bare ok_answer)))
        (In in_loop st 0)
        (request-Yields host node line IsIdle linked outer card_commit 0 []
          (record { mode = in_loop; globals = g }) (record { mode = in_loop; globals = g })
          (bare ok_answer) [] s here (omega arith) refl (omega arith, refl) refl)
        (λ t there.
          reply-Comes host node line IsIdle linked outer commit_timeout ok_answer
            (record { mode = in_loop; globals = g }) t (λ ans. require (ans == ans_ok) outer)
            (ok tt) (In in_loop st 0) there (omega arith, refl) (λ u quiet. (refl, quiet)))

  -- Success, and a firmware that has no bytes announced.
  abbrev Sent : ℕ → Reply × S → Type 0
  Sent st out =
      (out.0 ≡ returned (pos 0) [])
      × Stands host node line IsIdle linked out.1
          (record { mode = in_loop; globals = record { status = st; write_pending = 0 } }) []

  -- The end of `cardemu_send`, from the outcome of its last loop.
  abbrev replied : Outcome (Unit {0}) × Session S → Reply × S
  replied out = elim out.0 [
    | exhausted ↦ (returned error_generic [], out.1.port)
    | _ ↦ (returned (pos 0) [], out.1.port)
  ]

  finish-firmware :
      (st wp : ℕ) (s : Session S)
      → In in_loop st wp s
      → wp ≢ 0
      → let out = finish host 0x60 commit_timeout (pos 0) [] s in
        (out.0 ≡ returned (pos 0) [])
        × Stands host node line IsIdle linked out.1
            (record { mode = in_loop; globals = record { status = st; write_pending = 0 } })
            []
  unfolding finish
  finish-firmware st wp s here announced_bytes =
      let commit = command_try host 0x60 commit_timeout in
      let (stops, (left, size)) = refused-Comes st wp s here announced_bytes in
      let (synced, there) =
        resync-succeeds host node line IsIdle linked room (in_resync 0)
          (record { status = st; write_pending = 0 }) [] (commit s).1.port left (omega arith) in
      let again : Session S = record (commit s).1 { port = (resync host (commit s).1.port).1 } in
      let (ends, (there', _)) = commit-Yields st again (there, size) in
      subst (λ out. Sent st (replied out))
        (sym (
          retry-again host node line IsIdle linked 2 commit s stops synced
          ∙ retry-done host node line IsIdle linked 1 commit again tt ends))
        (refl, there')

  -- With the firmware in `loop`, no bytes announced and nothing on the line, `cardemu_send` of an
  -- APDU of 1 to 65535 bytes returns 0, success, and the firmware has kept none of its bytes: it
  -- refuses the commit, is resynchronised, and then accepts a commit of nothing.
  pub send-firmware :
      (bytes : List ℕ) (st : ℕ) (port : S)
      → 1 ≤ length bytes
      → length bytes ≤ 65535
      → Stands host node line IsIdle linked port
          (record { mode = in_loop; globals = record { status = st; write_pending = 0 } })
          []
      → let out = send host bytes port in
        (out.0 ≡ returned (pos 0) [])
        × Stands host node line IsIdle linked out.1
            (record { mode = in_loop; globals = record { status = st; write_pending = 0 } })
            []
  unfolding send after_data
  send-firmware bytes st port some_byte few here =
      let (ends, (there, size)) =
        send_try-Yields bytes st (begin host port) (here, room) some_byte few in
      let fits : ltb 0xFFFF (length bytes) ≡ false = ground arith in
      rw (fits, send)
        (subst
          (λ (out : Outcome (Unit {0}) × Session S).
            Sent st (after_data host out.0 (finish host 0x60 commit_timeout (pos 0) []) out.1))
          (sym (
            retry-done host node line IsIdle linked 2 (send_try host bytes) (begin host port) tt
              ends))
          (finish-firmware st (length bytes) (send_try host bytes (begin host port)).1 (there, size)
            (λ none. omega arith)))
