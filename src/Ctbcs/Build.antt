-- ===== src/Ctbcs/Build.antt =====
-- The commands that OpenCTDriver/src/ifd/ctbcs.c builds.
use open_pgpcard_emu.Base.{
  ℕ, zero, suc, ◌-◌, ◌%◌, ◌^◌, ◌≤◌, ◌<◌, ◌≡◌, refl, sym, subst, ap, ap₂, ◌∙◌, true, List, [], ◌∷◌,
  ◌++◌, arith, ltb, pos, some, length, ℤ, set, take, ◌⊎◌, inl, inr,
}
use open_pgpcard_emu.Base.Slice.{slice, slice-zero}
use open_pgpcard_emu.Buffer.{Buf, init, avail, overran, sub32}
use open_pgpcard_emu.Buffer.Queue.{avail-sub}
use open_pgpcard_emu.Atr.{error_buffer_too_small}
use open_pgpcard_emu.Ctbcs.{
  begin, finish, add_field, add_timeout, add_message, build_output, build_verify_apdu,
}
use open_pgpcard_emu.Ctbcs.Tracks.{
  IsBuilt, filled, Tracks, add_field-Tracks, begin-Tracks, add_timeout-Tracks, add_message-Tracks,
  timeout_field, message_field,
}

take-set : (xs : List ℕ) (n i v : ℕ) → take n (set xs i v) ≡ set (take n xs) i v
take-set xs zero i v = refl
take-set [] (suc n) i v = refl
take-set (x ∷ xs) (suc n) zero v = refl
take-set (x ∷ xs) (suc n) (suc i) v = ap (◌∷◌ x) (take-set xs n i v)

-- A command: its header, the length of the body in one byte, and the body.
abbrev pub command : ℕ → ℕ → List ℕ → List ℕ
command ins p1 body = 0x20 ∷ ins % 256 ∷ p1 % 256 ∷ 0 ∷ length body % 256 ∷ body

finish-command :
    (cmd : List ℕ) (ins p1 : ℕ) (body : List ℕ) (b : Buf)
    → length cmd < 2 ^ 31
    → IsBuilt (length cmd) (0x20 ∷ ins % 256 ∷ p1 % 256 ∷ 0 ∷ 0 ∷ body) b
    → let (r, mem) = finish b in
      (r ≡ pos (length (command ins p1 body)))
      × (take (length (command ins p1 body)) mem ≡ command ins p1 body)
unfolding finish overran
finish-command cmd ins p1 body b small built =
    let (wf, start, sound, size', same) = built in
    let n = length (command ins p1 body) in
    let full : b.tail ≡ n =
      filled (length cmd) (0x20 ∷ ins % 256 ∷ p1 % 256 ∷ 0 ∷ 0 ∷ body) b built in
    let unread : avail b ≡ n = avail-sub b wf ∙ omega arith in
    let (ht, ts, e, lt) = wf in
    let positive : ltb n (2 ^ 31) ≡ true = ground arith in
    let lc : sub32 n 5 ≡ length body = omega arith in
    let span : n ≡ b.tail - b.head = omega arith in
    let written : take n b.base ≡ 0x20 ∷ ins % 256 ∷ p1 % 256 ∷ 0 ∷ 0 ∷ body =
      sym (slice-zero n b.base (omega arith))
      ∙ ap₂ (λ (o k : ℕ). slice o k b.base) (sym start) span
      ∙ same in
    rw (sound, unread, positive, lc)
      (
        refl,
        take-set b.base n 4 (length body % 256)
            ∙ ap (λ (l : List ℕ). set l 4 (length body % 256)) written,
      )

-- What a caller gets for a command: the command and its length, or -11.
abbrev pub IsResult : List ℕ → ℕ → ℤ × List ℕ → Type 0
IsResult c size (r, mem) =
    ((length c ≤ size) × (r ≡ pos (length c)) × (take (length c) mem ≡ c))
    ⊎ ((size < length c) × (r ≡ error_buffer_too_small))

finish-IsResult :
    (cmd : List ℕ) (ins p1 : ℕ) (body : List ℕ) (b : Buf)
    → length cmd < 2 ^ 31
    → Tracks (length cmd) (0x20 ∷ ins % 256 ∷ p1 % 256 ∷ 0 ∷ 0 ∷ body) b
    → IsResult (command ins p1 body) (length cmd) (finish b)
unfolding finish overran
finish-IsResult cmd ins p1 body b small (inl (fits, built)) =
    let (r, stored) = finish-command cmd ins p1 body b small built in inl (fits, r, stored)
finish-IsResult cmd ins p1 body b small (inr (over, full)) = rw full (inr (over, refl))

-- The command that shows a message.
abbrev output_command : List ℕ → List ℕ
output_command message = command 0x17 0x40 (message_field message)

-- ctbcs_build_output of a message stores the command and returns its length if the memory has room
-- for it, and returns -11 if not. The command is the header, the length of the rest in one byte, and
-- the message cut to 32 characters, or nothing behind the length for the message "@".
build_output-IsResult :
    (cmd message : List ℕ)
    → length cmd < 2 ^ 31
    → IsResult (output_command message) (length cmd) (build_output cmd (length cmd) (some message))
unfolding build_output
build_output-IsResult cmd message small =
    let head : List ℕ = 0x20 ∷ 0x17 ∷ 0x40 ∷ 0 ∷ 0 ∷ [] in
    let b = begin 0x17 0x40 0 (init cmd (length cmd)) in
    finish-IsResult cmd 0x17 0x40 (message_field message) (add_message (some message) b).1 small
      (add_message-Tracks (length cmd) head message b (begin-Tracks cmd 0x17 0x40 small))

-- The body of a PIN command: the timeout, the prompt, and the data behind its tag and length.
abbrev pub verify_body : List ℕ → ℕ → List ℕ → List ℕ
verify_body prompt timeout pin =
    (timeout_field timeout ++ message_field prompt) ++ 0x52 ∷ length pin % 256 ∷ pin

-- ctbcs_build_verify_apdu with a prompt and at least one byte of data stores the command and returns
-- its length if the memory, of less than 2^31 bytes, has room for it, and returns -11 if not. The
-- command is the header, the length of the rest modulo 256, the timeout if it is not 0, the prompt
-- cut to 32 characters unless it is "@", and the data behind its length modulo 256.
pub build_verify_apdu-IsResult :
    (cmd : List ℕ) (ins p1 : ℕ) (prompt : List ℕ) (timeout d : ℕ) (rest : List ℕ)
    → length cmd < 2 ^ 31
    → IsResult
        (command ins p1 (verify_body prompt timeout (d ∷ rest)))
        (length cmd)
        (build_verify_apdu cmd (length cmd) ins p1 (some prompt) timeout (d ∷ rest))
unfolding build_verify_apdu
build_verify_apdu-IsResult cmd ins p1 prompt timeout d rest small =
    let t = timeout_field timeout in
    let m = message_field prompt in
    let n = suc (length rest) in
    let size = length cmd in
    let i = ins % 256 in
    let p = p1 % 256 in
    let head : List ℕ = 0x20 ∷ i ∷ p ∷ 0 ∷ 0 ∷ [] in
    let b = begin i p 0 (init cmd size) in
    let timed = (add_timeout timeout b).1 in
    let prompted = (add_message (some prompt) timed).1 in
    let same_ins : i % 256 ≡ i = omega arith in
    let same_p1 : p % 256 ≡ p = omega arith in
    let begun : Tracks size head b =
      subst (λ (h : List ℕ). Tracks size h b)
        (ap₂ (λ (x y : ℕ). 0x20 ∷ x ∷ y ∷ 0 ∷ 0 ∷ []) same_ins same_p1)
        (begin-Tracks cmd i p small) in
    let with_time = add_timeout-Tracks size head timeout b begun in
    let with_prompt = add_message-Tracks size (head ++ t) prompt timed with_time in
    finish-IsResult cmd ins p1 ((t ++ m) ++ 0x52 ∷ n % 256 ∷ d ∷ rest)
      (add_field 0x52 n (d ∷ rest) prompted) small
      (add_field-Tracks size ((head ++ t) ++ m) 0x52 n (d ∷ rest) prompted with_prompt)
