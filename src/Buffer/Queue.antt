-- ===== src/Buffer/Queue.antt =====
-- The buffers of OpenCTDriver/src/ct/buffer.c as bounded queues of bytes.
use open_pgpcard_emu.Base.{
  ℕ, ◌+◌, ◌-◌, ◌^◌, ◌≤◌, ◌<◌, ◌≡◌, refl, ap, ap₂, ◌∙◌, sym, true, false, List, ◌++◌, arith, ltb,
  ◌==◌, if◌then◌else◌, pos, negsuc, to_int, to_int-pos, write_at, length, length-write_at, take,
  drop, Bool-cases, inl, inr,
}
use open_pgpcard_emu.Base.Slice.{slice, length-slice}
use open_pgpcard_emu.Base.Write.{
  slice-write_at, slice-write_at_before, slice-add, slice-whole, take-slice, drop-slice,
}
use open_pgpcard_emu.Buffer.{Buf, add32, avail, tailroom, get, compact, put_fitting, put}

-- The indices are in order, and `base` is memory of `size` bytes.
abbrev pub IsBuf : Buf → Type 0
IsBuf b = (b.head ≤ b.tail) × (b.tail ≤ b.size) × (b.size ≡ length b.base) × (b.size < 2 ^ 32)

-- The queue: the unread bytes.
abbrev pub content : Buf → List ℕ
content b = slice b.head (b.tail - b.head) b.base

pub avail-sub : (b : Buf) → IsBuf b → avail b ≡ b.tail - b.head
unfolding avail
avail-sub b (ht, ts, e, lt) = omega arith

pub avail-content : (b : Buf) → IsBuf b → avail b ≡ length (content b)
avail-content b wf = avail-sub b wf ∙ sym (length-slice b.head (b.tail - b.head) b.base)

pub tailroom-sub : (b : Buf) → IsBuf b → tailroom b ≡ b.size - b.tail
unfolding tailroom
tailroom-sub b (ht, ts, e, lt) = omega arith

-- Compacting moves the queue to the start of the memory.
pub compact_lem :
    (b : Buf)
    → IsBuf b
    → let c = compact b in
      IsBuf c
      × (c.head ≡ 0)
      × (c.tail ≡ b.tail - b.head)
      × (c.size ≡ b.size)
      × (content c ≡ content b)
unfolding compact
compact_lem b (ht, ts, e, lt) = elim (Bool-cases (b.head == 0)) [
  | inl still ↦ rw still ((ht, ts, e, lt), ground arith, ground arith, refl, refl)
  | inr moved ↦
      rw (moved, avail-sub b (ht, ts, e, lt))
        (
          (
            omega arith,
            ground arith,
            e ∙ sym (length-write_at b.base 0 (slice b.head (b.tail - b.head) b.base)),
            lt,
          ),
          refl,
          ground arith,
          refl,
          let live = slice b.head (b.tail - b.head) b.base in
              let n = length-slice b.head (b.tail - b.head) b.base in
              ap (λ (k : ℕ). slice 0 k (write_at b.base 0 live)) (omega (arith, n))
              ∙ slice-write_at b.base 0 live (length live) (omega arith) (omega (arith, n))
              ∙ slice-whole live,
        )
]

put_fitting-appends :
    (bytes : List ℕ) (b : Buf)
    → IsBuf b
    → length bytes ≤ b.size - b.tail
    → let out = put_fitting bytes b in
      (out.0 ≡ to_int (length bytes))
      × IsBuf out.1
      × (out.1.size ≡ b.size)
      × (content out.1 ≡ content b ++ bytes)
unfolding put_fitting
put_fitting-appends bytes b (ht, ts, e, lt) fits =
    let room : ltb (tailroom b) (length bytes) ≡ false =
      ground (arith, tailroom-sub b (ht, ts, e, lt)) in
    let tail' : add32 b.tail (length bytes) ≡ b.tail + length bytes = omega arith in
    rw (room, tail')
      (
        refl,
        (omega arith, omega arith, e ∙ sym (length-write_at b.base b.tail bytes), lt),
        refl,
        ap (λ (k : ℕ). slice b.head k (write_at b.base b.tail bytes))
              {x = b.tail + length bytes - b.head} {y = b.tail - b.head + length bytes}
              (omega arith)
            ∙ slice-add b.head (b.tail - b.head) (length bytes) (write_at b.base b.tail bytes)
            ∙ ap₂ ◌++◌
                (slice-write_at_before b.head (b.tail - b.head) b.base b.tail bytes (omega arith))
                (ap (λ (o : ℕ). slice o (length bytes) (write_at b.base b.tail bytes))
                    {x = b.head + (b.tail - b.head)} {y = b.tail} (omega arith)
                  ∙ slice-write_at b.base b.tail bytes (length bytes) (omega arith) (omega arith)
                  ∙ slice-whole bytes),
      )

put_fitting-refuses :
    (bytes : List ℕ) (b : Buf)
    → IsBuf b
    → b.size - b.tail < length bytes
    → put_fitting bytes b ≡ (negsuc 0, record b { overrun = true })
unfolding put_fitting
put_fitting-refuses bytes b wf full =
    let room : ltb (tailroom b) (length bytes) ≡ true = ground (arith, tailroom-sub b wf) in
    rw room refl

-- The buffer that `ct_buf_put` copies into: compacted if `n` bytes do not fit behind the tail.
abbrev made_room : ℕ → Buf → Buf
made_room n b = if ltb (tailroom b) n then compact b else b

made_room_lem :
    (n : ℕ) (b : Buf)
    → IsBuf b
    → let r = made_room n b in
      IsBuf r
      × (r.size ≡ b.size)
      × (content r ≡ content b)
      × (b.tail - b.head + n ≤ b.size → n ≤ r.size - r.tail)
      × (b.size < b.tail - b.head + n → r.size - r.tail < n)
made_room_lem n b wf = elim (Bool-cases (ltb (tailroom b) n)) [
  | inl near_end ↦
      let (wf', head', tail', size', same) = compact_lem b wf in
      rw near_end (wf', size', same, λ fits. omega arith, λ full. omega arith)
  | inr roomy ↦
      let enough : n ≤ b.size - b.tail = ground (arith, tailroom-sub b wf) in
      let (ht, ts, e, lt) = wf in
      rw roomy (wf, refl, refl, λ fits. enough, λ full. absurd (omega arith))
]

-- `ct_buf_put` of any number of bytes that fit: the returned `int` holds it only below 2^31.
pub put-grows :
    (bytes : List ℕ) (b : Buf)
    → IsBuf b
    → length (content b) + length bytes ≤ b.size
    → let out = put bytes b in
      (out.0 ≡ to_int (length bytes))
      × IsBuf out.1
      × (out.1.size ≡ b.size)
      × (content out.1 ≡ content b ++ bytes)
unfolding put
put-grows bytes b wf fits =
    let (wf', size', same, roomy, _) = made_room_lem (length bytes) b wf in
    let len = length-slice b.head (b.tail - b.head) b.base in
    let (r, wf'', size'', appended) =
      put_fitting-appends bytes (made_room (length bytes) b) wf' (roomy (omega arith)) in
    (r, wf'', size'' ∙ size', appended ∙ ap (λ (q : List ℕ). q ++ bytes) same)

-- `ct_buf_put` into a buffer with well-ordered indices, of fewer than 2^31 bytes: if they fit next
-- to the unread ones, it returns their number and appends them, whether it has to compact the buffer
-- first or not. The indices stay well-ordered and the size stays.
pub put-appends :
    (bytes : List ℕ) (b : Buf)
    → IsBuf b
    → length bytes < 2 ^ 31
    → length (content b) + length bytes ≤ b.size
    → let out = put bytes b in
      (out.0 ≡ pos (length bytes))
      × IsBuf out.1
      × (out.1.size ≡ b.size)
      × (content out.1 ≡ content b ++ bytes)
put-appends bytes b wf short fits =
    let (r, wf', size, all) = put-grows bytes b wf fits in
    (r ∙ to_int-pos (length bytes) short, wf', size, all)

-- `ct_buf_put` of more bytes than fit next to the unread ones returns -1, sets `overrun`, and keeps
-- the unread bytes, the order of the indices and the size.
pub put-refuses :
    (bytes : List ℕ) (b : Buf)
    → IsBuf b
    → b.size < length (content b) + length bytes
    → let out = put bytes b in
      (out.0 ≡ negsuc 0)
      × IsBuf out.1
      × (out.1.overrun ≡ true)
      × (out.1.size ≡ b.size)
      × (content out.1 ≡ content b)
unfolding put
put-refuses bytes b wf full =
    let (wf', size', same, _, tight) = made_room_lem (length bytes) b wf in
    let len = length-slice b.head (b.tail - b.head) b.base in
    rw (put_fitting-refuses bytes (made_room (length bytes) b) wf' (tight (omega arith)))
      (refl, wf', refl, size', same)

-- Bytes that fit behind the tail move nothing.
pub put-keeps :
    (new : List ℕ) (b : Buf)
    → IsBuf b
    → b.tail + length new ≤ b.size
    → ((put new b).1.head ≡ b.head) × ((put new b).1.overrun ≡ b.overrun)
unfolding put put_fitting
put-keeps new b wf fits =
    let room : ltb (tailroom b) (length new) ≡ false = ground (arith, tailroom-sub b wf) in
    rw (room, room) (refl, refl)

-- `ct_buf_get` of any number of unread bytes: the returned `int` holds it only below 2^31.
pub get-drops :
    (n : ℕ) (b : Buf)
    → IsBuf b
    → n ≤ length (content b)
    → let out = get n b in
      (out.0 ≡ to_int n)
      × (out.1 ≡ take n (content b))
      × IsBuf out.2
      × (content out.2 ≡ drop n (content b))
unfolding get
get-drops n b (ht, ts, e, lt) fits =
    let len = length-slice b.head (b.tail - b.head) b.base in
    let size = avail-sub b (ht, ts, e, lt) in
    let enough : ltb (avail b) n ≡ false = ground arith in
    let head' : add32 b.head n ≡ b.head + n = omega arith in
    rw (enough, head')
      (
        refl,
        sym (take-slice b.head n (b.tail - b.head) b.base (omega arith)),
        (omega arith, ts, e, lt),
        ap (λ (k : ℕ). slice (b.head + n) k b.base) {x = b.tail - (b.head + n)}
              {y = b.tail - b.head - n} (omega arith)
            ∙ sym (drop-slice b.head n (b.tail - b.head) b.base (omega arith)),
      )

-- `ct_buf_get` of at most as many bytes as are unread, and fewer than 2^31, from a buffer with
-- well-ordered indices, returns their number, stores the first unread bytes, and leaves the others
-- unread with the indices well-ordered.
pub get-takes :
    (n : ℕ) (b : Buf)
    → IsBuf b
    → n < 2 ^ 31
    → n ≤ length (content b)
    → let out = get n b in
      (out.0 ≡ pos n)
      × (out.1 ≡ take n (content b))
      × IsBuf out.2
      × (content out.2 ≡ drop n (content b))
get-takes n b wf short fits =
    let (r, stored, wf', left) = get-drops n b wf fits in
    (r ∙ to_int-pos n short, stored, wf', left)
