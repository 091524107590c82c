-- ===== src/Buffer/Push.antt =====
-- `ct_buf_push` of OpenCTDriver/src/ct/buffer.c: bytes in front of the unread ones.
use open_pgpcard_emu.Base.{
  ℕ, suc, ◌+◌, ◌-◌, ◌≤◌, ◌≡◌, refl, sym, ap, ap₂, ◌∙◌, List, [], ◌∷◌, ◌++◌, arith, ltb, false,
  get_or, set, get_or-set_ne, length, length-write_at, write_at, pos, to_int-pos, ◌<◌, ◌^◌,
}
use open_pgpcard_emu.Base.Slice.{slice, slice-eq}
use open_pgpcard_emu.Base.Write.{slice-write_at, slice-add, slice-whole}
use open_pgpcard_emu.Buffer.{Buf, push}
use open_pgpcard_emu.Buffer.Queue.{IsBuf, content}

get_or-write_at_after :
    (xs : List ℕ) (i : ℕ) (ys : List ℕ) (j : ℕ)
    → i + length ys ≤ j
    → get_or (write_at xs i ys) j 0 ≡ get_or xs j 0
get_or-write_at_after xs i [] j h = refl
get_or-write_at_after xs i (y ∷ ys) j h =
    get_or-write_at_after (set xs i y) (suc i) ys j (omega arith)
    ∙ get_or-set_ne xs i j y 0 (omega arith)

slice-write_at_after :
    (off n : ℕ) (xs : List ℕ) (i : ℕ) (ys : List ℕ)
    → i + length ys ≤ off
    → slice off n (write_at xs i ys) ≡ slice off n xs
slice-write_at_after off n xs i ys h =
    slice-eq off off n (write_at xs i ys) xs
      (λ k small. get_or-write_at_after xs i ys (off + k) (omega arith))

-- `ct_buf_push` into a buffer with well-ordered indices, of at most as many bytes as were read off
-- its start, and fewer than 2^31, returns their number and puts them in front of the unread bytes;
-- the indices stay well-ordered.
pub push-prepends :
    (bytes : List ℕ) (b : Buf)
    → IsBuf b
    → length bytes < 2 ^ 31
    → length bytes ≤ b.head
    → let out = push bytes b in
      (out.0 ≡ pos (length bytes)) × IsBuf out.1 × (content out.1 ≡ bytes ++ content b)
unfolding push
push-prepends bytes b (ht, ts, e, lt) short fits =
    let room : ltb b.head (length bytes) ≡ false = ground arith in
    let front = b.head - length bytes in
    let mem = write_at b.base front bytes in
    rw room (
      to_int-pos (length bytes) short,
      (omega arith, ts, e ∙ sym (length-write_at b.base front bytes), lt),
      ap (λ (k : ℕ). slice front k mem) {x = b.tail - front} {y = length bytes + (b.tail - b.head)}
            (omega arith)
          ∙ slice-add front (length bytes) (b.tail - b.head) mem
          ∙ ap₂ ◌++◌
              (slice-write_at b.base front bytes (length bytes) (omega arith) (omega arith)
                ∙ slice-whole bytes)
              (ap (λ (o : ℕ). slice o (b.tail - b.head) mem) {x = front + length bytes} {y = b.head}
                  (omega arith)
                ∙ slice-write_at_after b.head (b.tail - b.head) b.base front bytes (omega arith)),
    )
