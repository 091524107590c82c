-- ===== src/Buffer.antt =====
-- The byte buffers of OpenCTDriver/src/ct/buffer.c: a region of memory with the unread bytes from
-- `head` to `tail`.
pub mod Queue
pub mod Push
use open_pgpcard_emu.Base.{
  ℕ, zero, suc, ◌+◌, ◌-◌, ◌%◌, ◌^◌, Bool, true, false, List, [], ◌∷◌, ◌&&◌, ◌==◌, ◌!=◌, ltb,
  if◌then◌else◌, ℤ, pos, negsuc, is_neg, to_int, Option, none, some, write_at, get_or, length,
}
use open_pgpcard_emu.Base.Slice.{slice}

-- `ct_buf_t`. `base` is the memory that the pointer leads to.
pub record Buf : Type 0 where
  pub base : List ℕ
  pub head : ℕ
  pub tail : ℕ
  pub size : ℕ
  pub overrun : Bool

-- `unsigned int` subtraction and addition
abbrev pub sub32 : ℕ → ℕ → ℕ
sub32 a b = (a + 2 ^ 32 - b) % 2 ^ 32

abbrev pub add32 : ℕ → ℕ → ℕ
add32 a b = (a + b) % 2 ^ 32

unfoldable pub init : List ℕ → ℕ → Buf
init mem len = record { base = mem; head = 0; tail = 0; size = len % 2 ^ 32; overrun = false }

-- `ct_buf_set`: the memory holds `len` bytes already.
unfoldable pub set_full : List ℕ → ℕ → Buf
unfolding init
set_full mem len = record (init mem len) { tail = len % 2 ^ 32 }

unfoldable pub clear : Buf → Buf
clear b = record b { head = 0; tail = 0 }

unfoldable pub avail : Buf → ℕ
avail b = sub32 b.tail b.head

unfoldable pub tailroom : Buf → ℕ
tailroom b = sub32 b.size b.tail

-- `ct_buf_size`
unfoldable pub capacity : Buf → ℕ
capacity b = b.size

-- The memory from the first unread byte on, of which `n` bytes are read.
unfoldable pub head_bytes : Buf → ℕ → List ℕ
head_bytes b n = slice b.head n b.base

-- The memory from the end of the unread bytes on, of which `n` bytes are read.
unfoldable pub tail_bytes : Buf → ℕ → List ℕ
tail_bytes b n = slice b.tail n b.base

-- `ct_buf_overrun`
unfoldable pub overran : Buf → Bool
overran b = b.overrun

-- The return code, the bytes copied to `mem`, and the buffer. (A null `mem` gets no copy.)
unfoldable pub get : ℕ → Buf → ℤ × List ℕ × Buf
unfolding avail
get len b =
    if ltb (avail b) len
    then (negsuc 0, [], b)
    else (to_int len, slice b.head len b.base, record b { head = add32 b.head len })

unfoldable pub compact : Buf → Buf
unfolding avail
compact b = if b.head == 0 then b else record b {
  base = write_at b.base 0 (slice b.head (avail b) b.base);
  tail = sub32 b.tail b.head;
  head = 0;
}

-- The part of `ct_buf_put` behind the call of `ct_buf_compact`.
unfoldable pub put_fitting : List ℕ → Buf → ℤ × Buf
unfolding tailroom
put_fitting bytes b =
    if ltb (tailroom b) (length bytes) then (negsuc 0, record b { overrun = true }) else (
      to_int (length bytes),
      record b { base = write_at b.base b.tail bytes; tail = add32 b.tail (length bytes) },
    )

-- `mem` and `len` as one list.
unfoldable pub put : List ℕ → Buf → ℤ × Buf
unfolding put_fitting compact tailroom
put bytes b = put_fitting bytes (if ltb (tailroom b) (length bytes) then compact b else b)

-- `ct_buf_put` with a null `mem`, whose result is not read: the bytes are there already.
unfoldable pub reserve : ℕ → Buf → Buf
unfolding compact tailroom
reserve len b =
    let b' = if ltb (tailroom b) len then compact b else b in
    if ltb (tailroom b') len
    then record b' { overrun = true }
    else record b' { tail = add32 b'.tail len }

unfoldable pub push : List ℕ → Buf → ℤ × Buf
push bytes b =
    if ltb b.head (length bytes)
    then (negsuc 0, b)
    else let head' = b.head - length bytes in
      (to_int (length bytes), record b { base = write_at b.base head' bytes; head = head' })

unfoldable pub putc : ℕ → Buf → ℤ × Buf
putc byte b = put (byte % 256 ∷ []) b

-- The string without its NUL.
unfoldable pub puts : List ℕ → Buf → ℤ × Buf
puts string b = put string b

-- `for (n = 0; n < size && s[n] != '\n'; n++)`
unfoldable pub scan_line : ℕ → ℕ → List ℕ → ℕ
scan_line zero n s = n
scan_line (suc left) n s = elim (get_or s n 0 == 10) [ true ↦ n | false ↦ scan_line left (suc n) s ]

-- `while (n < avail && s[n++] != '\n')`
unfoldable pub skip_line : ℕ → ℕ → List ℕ → ℕ
skip_line zero n s = n
skip_line (suc left) n s = elim (get_or s n 0 == 10) [
  | true ↦ suc n
  | false ↦ skip_line left (suc n) s
]

-- The line without its newline, at most `size - 1` bytes, and the buffer behind it. `size` is a
-- `size_t`.
unfoldable pub gets : ℕ → Buf → List ℕ × Buf
unfolding scan_line skip_line avail
gets size b =
    let room = (size + 2 ^ 64 - 1) % 2 ^ 64 in
    let limit = if ltb (avail b) room then avail b else room in
    let s = slice b.head (avail b) b.base in
    let n = scan_line limit 0 s in
    let eaten = skip_line (avail b - n) n s in (slice 0 n s, record b { head = add32 b.head eaten })

-- `ct_buf_read`, given what `read` returned and stored.
unfoldable pub read_fd : (ℕ → ℤ × List ℕ) → Buf → ℤ × Buf
unfolding compact tailroom
read_fd read b =
    let c = compact b in
    let (n, bytes) = read (tailroom c) in
    elim n [
      | negsuc _ ↦ (negsuc 0, c)
      | pos m ↦ (pos 0, record c { base = write_at c.base c.tail bytes; tail = add32 c.tail m })
    ]
