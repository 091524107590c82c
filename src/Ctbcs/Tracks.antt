-- ===== src/Ctbcs/Tracks.antt =====
-- What the calls of OpenCTDriver/src/ifd/ctbcs.c append to a buffer, whether it has room or not.
use open_pgpcard_emu.Base.{
  ℕ, ◌+◌, ◌-◌, ◌%◌, ◌^◌, ◌≤◌, ◌<◌, ◌≡◌, refl, sym, subst, ap, ◌∙◌, true, false, List, [], ◌∷◌, ◌++◌,
  append_assoc, append-nil, arith, ltb, ◌==◌, if◌then◌else◌, some, length, length-append, take,
  Bool-cases, ◌⊎◌, inl, inr,
}
use open_pgpcard_emu.Base.Slice.{slice, length-slice}
use open_pgpcard_emu.Buffer.{Buf, init, compact, put, putc, put_fitting}
use open_pgpcard_emu.Buffer.Queue.{IsBuf, content, put-grows, put-refuses, put-keeps}
use open_pgpcard_emu.Ctbcs.{append, begin, add_field, add_timeout, add_message, is_at, shown}

-- A buffer of `size` bytes, filled from its start with `bytes` and never overrun.
abbrev pub IsBuilt : ℕ → List ℕ → Buf → Type 0
IsBuilt size bytes b =
    IsBuf b × (b.head ≡ 0) × (b.overrun ≡ false) × (b.size ≡ size) × (content b ≡ bytes)

pub filled : (size : ℕ) (bytes : List ℕ) (b : Buf) → IsBuilt size bytes b → b.tail ≡ length bytes
filled size bytes b (wf, start, _, _, same) =
    omega (arith, length-slice b.head (b.tail - b.head) b.base, ap length same)

put-IsBuilt :
    (size : ℕ) (bytes new : List ℕ) (b : Buf)
    → IsBuilt size bytes b
    → length bytes + length new ≤ size
    → IsBuilt size (bytes ++ new) (put new b).1
put-IsBuilt size bytes new b built fits =
    let (wf, start, sound, size', same) = built in
    let (_, wf', size'', all) = put-grows new b wf (omega (arith, ap length same)) in
    let (start', sound') = put-keeps new b wf (omega (arith, filled size bytes b built)) in
    (wf', start' ∙ start, sound' ∙ sound, size'' ∙ size', all ∙ ap (λ (q : List ℕ). q ++ new) same)

-- Once set, `overrun` stays.
put-sticky : (new : List ℕ) (b : Buf) → b.overrun ≡ true → (put new b).1.overrun ≡ true
unfolding put put_fitting compact
put-sticky new b h = ground arith

-- What `ctbcs_begin` and the calls behind it leave: all the bytes, or a buffer that was overrun
-- since they are too many.
abbrev pub Tracks : ℕ → List ℕ → Buf → Type 0
Tracks size bytes b =
    ((length bytes ≤ size) × IsBuilt size bytes b) ⊎ ((size < length bytes) × (b.overrun ≡ true))

put-Tracks :
    (size : ℕ) (bytes new : List ℕ) (b : Buf)
    → Tracks size bytes b
    → Tracks size (bytes ++ new) (put new b).1
put-Tracks size bytes new b (inl (held, built)) =
    let long = length-append bytes new in
    let (wf, _, _, size', same) = built in
    elim (Bool-cases (ltb size (length bytes + length new))) [
      | inl over ↦
          let many : size < length bytes + length new = ground arith in
          inr (omega (arith, long), (put-refuses new b wf (omega (arith, ap length same))).2)
      | inr roomy ↦
          let fits : length bytes + length new ≤ size = ground arith in
          inl (omega (arith, long), put-IsBuilt size bytes new b built fits)
    ]
put-Tracks size bytes new b (inr (over, full)) =
    inr (omega (arith, length-append bytes new), put-sticky new b full)

append-Tracks :
    (size : ℕ) (bytes : List ℕ) (byte : ℕ) (b : Buf)
    → Tracks size bytes b
    → Tracks size (bytes ++ byte % 256 ∷ []) (append byte b)
unfolding append putc
append-Tracks size bytes byte b = put-Tracks size bytes (byte % 256 ∷ []) b

pub add_field-Tracks :
    (size : ℕ) (bytes : List ℕ) (tag n : ℕ) (new : List ℕ) (b : Buf)
    → Tracks size bytes b
    → Tracks size (bytes ++ tag % 256 ∷ n % 256 ∷ new) (add_field tag n new b)
unfolding add_field
add_field-Tracks size bytes tag n new b tracks =
    let tagged = append-Tracks size bytes tag b tracks in
    let counted = append-Tracks size (bytes ++ tag % 256 ∷ []) n (append tag b) tagged in
    rw
      (
        sym (append_assoc bytes (tag % 256 ∷ []) (n % 256 ∷ new)),
        sym (append_assoc (bytes ++ tag % 256 ∷ []) (n % 256 ∷ []) new),
      )
      (put-Tracks size ((bytes ++ tag % 256 ∷ []) ++ n % 256 ∷ []) new (append n (append tag b))
        counted)

init-Tracks : (cmd : List ℕ) → length cmd < 2 ^ 31 → Tracks (length cmd) [] (init cmd (length cmd))
unfolding init slice
init-Tracks cmd small =
    let whole : length cmd % 2 ^ 32 ≡ length cmd = omega arith in
    inl (omega arith, ((omega arith, omega arith, whole, omega arith), refl, refl, whole, refl))

-- The header of a command.
pub begin-Tracks :
    (cmd : List ℕ) (ins p1 : ℕ)
    → length cmd < 2 ^ 31
    → Tracks
        (length cmd)
        (0x20 ∷ ins % 256 ∷ p1 % 256 ∷ 0 ∷ 0 ∷ [])
        (begin ins p1 0 (init cmd (length cmd)))
unfolding begin
begin-Tracks cmd ins p1 small =
    let size = length cmd in
    let b1 = append 0x20 (init cmd size) in
    let b2 = append ins b1 in
    let b3 = append p1 b2 in
    let h2 : List ℕ = 0x20 ∷ ins % 256 ∷ [] in
    let h3 : List ℕ = 0x20 ∷ ins % 256 ∷ p1 % 256 ∷ [] in
    let h4 : List ℕ = 0x20 ∷ ins % 256 ∷ p1 % 256 ∷ 0 ∷ [] in
    let is1 = append-Tracks size [] 0x20 (init cmd size) (init-Tracks cmd small) in
    let is2 = append-Tracks size (0x20 ∷ []) ins b1 is1 in
    let is3 = append-Tracks size h2 p1 b2 is2 in
    append-Tracks size h4 0 (append 0 b3) (append-Tracks size h3 0 b3 is3)

-- What a timeout adds to a command: nothing for 0, a field of one byte for others.
abbrev pub timeout_field : ℕ → List ℕ
timeout_field timeout = if timeout == 0 then [] else 0x80 ∷ 1 ∷ timeout % 256 ∷ []

-- What a message adds to a command: nothing for "@", else at most 32 of its characters.
abbrev pub message_field : List ℕ → List ℕ
message_field message =
    if is_at message then [] else 0x50 ∷ shown message ∷ take (shown message) message

pub add_timeout-Tracks :
    (size : ℕ) (bytes : List ℕ) (timeout : ℕ) (b : Buf)
    → Tracks size bytes b
    → Tracks size (bytes ++ timeout_field timeout) (add_timeout timeout b).1
unfolding add_timeout add_field append putc
add_timeout-Tracks size bytes timeout b tracks = elim (Bool-cases (timeout == 0)) [
  | inl off ↦ rw off (rw (append-nil bytes) tracks)
  | inr on ↦ rw on (add_field-Tracks size bytes 0x80 1 (timeout % 256 ∷ []) b tracks)
]

pub add_message-Tracks :
    (size : ℕ) (bytes message : List ℕ) (b : Buf)
    → Tracks size bytes b
    → Tracks size (bytes ++ message_field message) (add_message (some message) b).1
unfolding add_message
add_message-Tracks size bytes message b tracks = elim (Bool-cases (is_at message)) [
  | inl at ↦ rw at (rw (append-nil bytes) tracks)
  | inr text ↦
      let few : shown message % 256 ≡ shown message = ground arith in
      let shorter = take (shown message) message in
      let b' = add_field 0x50 (shown message) shorter b in
      rw text (
        subst (λ (n : ℕ). Tracks size (bytes ++ 0x50 ∷ n ∷ shorter) b') few
          (add_field-Tracks size bytes 0x50 (shown message) shorter b tracks))
]
