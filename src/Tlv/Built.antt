-- ===== src/Tlv/Built.antt =====
-- What the builder of tlv.c puts into a buffer with room for it, with small tags.
use open_pgpcard_emu.Base.{
  to_int-pos, ℕ, suc, ◌+◌, ◌-◌, ◌%◌, ◌≤◌, ◌<◌, ◌≡◌, ◌^◌, refl, ap, ap₂, ◌∙◌, sym, true, false, List,
  [], ◌∷◌, ◌++◌, subst, arith, ltb, if◌then◌else◌, Option, none, some, set, get_or, length,
  length-append, append-nil, append_assoc, ℤ, pos, is_neg, write_at, length-write_at, length-set,
  get_or-set_self, get_or-set_ne,
}
use open_pgpcard_emu.Base.Slice.{slice, slice-set_ne}
use open_pgpcard_emu.Base.Write.{
  slice-add, slice-write_at, slice-write_at_before, slice-whole, get_or-write_at_before,
}
use open_pgpcard_emu.Buffer.{Buf, tailroom, put, put_fitting, putc, add32}
use open_pgpcard_emu.Buffer.Queue.{IsBuf, content, tailroom-sub}
use open_pgpcard_emu.Tlv.Builder.{
  Builder, put_header_byte, put_tag, write_length, add_bytes, put_opaque,
}
use open_pgpcard_emu.Tlv.Items.{Item, IsItem, AreItems, encode}

-- A buffer with bytes put behind the unread ones, where there is room.
abbrev put_behind : List ℕ → Buf → Buf
put_behind bytes b = record b { base = write_at b.base b.tail bytes; tail = b.tail + length bytes }

put_behind-IsBuf :
    (bytes : List ℕ) (b : Buf)
    → IsBuf b
    → b.tail + length bytes ≤ b.size
    → IsBuf (put_behind bytes b)
put_behind-IsBuf bytes b (ht, ts, e, lt) fits =
    (omega arith, fits, e ∙ sym (length-write_at b.base b.tail bytes), lt)

put-fits :
    (bytes : List ℕ) (b : Buf)
    → IsBuf b
    → b.tail + length bytes ≤ b.size
    → length bytes < 2 ^ 31
    → put bytes b ≡ (pos (length bytes), put_behind bytes b)
unfolding put put_fitting
put-fits bytes b wf fits short =
    let (ht, ts, e, lt) = wf in
    let room : ltb (tailroom b) (length bytes) ≡ false = ground (arith, tailroom-sub b wf) in
    let tail' : add32 b.tail (length bytes) ≡ b.tail + length bytes = omega arith in
    rw (room, room, tail')
      (ap (λ (r : ℤ). (r, put_behind bytes b)) (to_int-pos (length bytes) short))

-- A builder with small tags and without an error.
abbrev pub working : Buf → ℕ → Option ℕ → Builder
working b len lenp = record {
  error = false;
  use_large_tags = false;
  buf = b;
  len = len;
  lenp = lenp;
}

put_header_byte-fits :
    (byte : ℕ) (b : Buf) (len : ℕ) (lenp : Option ℕ)
    → byte < 256
    → IsBuf b
    → b.tail + 1 ≤ b.size
    → put_header_byte byte (working b len lenp) ≡ working (put_behind (byte ∷ []) b) len lenp
unfolding put_header_byte putc
put_header_byte-fits byte b len lenp small wf fits =
    let low : byte % 256 ≡ byte = omega arith in
    let w = working b len lenp in
    let after : ℤ × Buf → Builder =
      λ o. if is_neg o.0 then record w { buf = o.1; error = true } else record w { buf = o.1 } in
    rw low (ap after (put-fits (byte ∷ []) b wf fits (omega arith)))

put_tag-fits :
    (tag : ℕ) (b : Buf) (len : ℕ) (lenp : Option ℕ)
    → tag < 256
    → IsBuf b
    → b.tail + 2 ≤ b.size
    → put_tag tag (working b len lenp)
      ≡ working (put_behind (0 ∷ []) (put_behind (tag ∷ []) b)) 0 (some (b.tail + 1))
unfolding put_tag
put_tag-fits tag b len lenp small wf fits =
    let b₁ = put_behind (tag ∷ []) b in
    let last : Builder → Builder =
      λ w. if w.error then w else if w.use_large_tags then put_header_byte 0 w else w in
    let first : Builder → Builder = λ w.
      if w.error
      then w
      else last (put_header_byte 0 (record w { len = 0; lenp = some w.buf.tail })) in
    ap first (put_header_byte-fits tag b len lenp small wf (omega arith))
    ∙ ap last (
        put_header_byte-fits 0 b₁ 0 (some b₁.tail) (omega arith)
          (put_behind-IsBuf (tag ∷ []) b wf (omega arith)) (omega arith))

add_bytes-fits :
    (bytes : List ℕ) (b : Buf) (at : ℕ)
    → length bytes ≤ 255
    → IsBuf b
    → b.tail + length bytes ≤ b.size
    → let b' = put_behind bytes b in
      add_bytes bytes (working b 0 (some at))
      ≡ working (record b' { base = set b'.base at (length bytes) }) (length bytes) (some at)
unfolding add_bytes write_length
add_bytes-fits bytes b at few wf fits =
    let w = working b 0 (some at) in
    let len : (0 + length bytes) % 2 ^ 32 ≡ length bytes = omega arith in
    let fits_byte : length bytes % 256 ≡ length bytes = omega arith in
    let short : ltb 266 (length bytes) ≡ false = ground arith in
    let after : ℤ × Buf → Builder = λ o.
      let w' = record w { buf = o.1; len = (0 + length bytes) % 2 ^ 32 } in
      if is_neg o.0 then record w' { error = true } else write_length at w' in
    ap after (put-fits bytes b wf fits (omega arith)) ∙ rw (len, short, fits_byte) refl

-- The buffer behind an item.
abbrev item_put : ℕ → List ℕ → Buf → Buf
item_put tag bytes b =
    let b' = put_behind bytes (put_behind (0 ∷ []) (put_behind (tag ∷ []) b)) in
    record b' { base = set b'.base (b.tail + 1) (length bytes) }

put_opaque-fits :
    (tag : ℕ) (bytes : List ℕ) (b : Buf) (len : ℕ) (lenp : Option ℕ)
    → IsItem (tag, bytes)
    → IsBuf b
    → b.tail + 2 + length bytes ≤ b.size
    → put_opaque tag bytes (working b len lenp) ≡ working (item_put tag bytes b) (length bytes) none
unfolding put_opaque
put_opaque-fits tag bytes b len lenp (small, _, _, few) wf fits =
    let wf₁ = put_behind-IsBuf (tag ∷ []) b wf (omega arith) in
    let wf₂ = put_behind-IsBuf (0 ∷ []) (put_behind (tag ∷ []) b) wf₁ (omega arith) in
    let close : Builder → Builder = λ w. record w { lenp = none } in
    ap (λ w. close (add_bytes bytes w)) (put_tag-fits tag b len lenp small wf (omega arith))
    ∙ ap close (
        add_bytes-fits bytes (put_behind (0 ∷ []) (put_behind (tag ∷ []) b)) (b.tail + 1) few wf₂
          (omega arith))

-- The bytes of the memory behind an item, in its three parts and before it.
item_bytes :
    (tag : ℕ) (bytes : List ℕ) (h t : ℕ) (base : List ℕ)
    → h ≤ t
    → t + 2 + length bytes ≤ length base
    → let m =
        set (write_at (set (set base t tag) (t + 1) 0) (t + 1 + 1) bytes) (t + 1) (length bytes) in
      (slice h (t - h) m ≡ slice h (t - h) base)
      × (get_or m t 0 ≡ tag)
      × (get_or m (t + 1) 0 ≡ length bytes)
      × (slice (t + 1 + 1) (length bytes) m ≡ bytes)
item_bytes tag bytes h t base ordered fits =
    let n = length bytes in
    let one = set base t tag in
    let two = set one (t + 1) 0 in
    let three = write_at two (t + 1 + 1) bytes in
    let len₁ = length-set base t tag in
    let len₂ = length-set one (t + 1) 0 in
    let len₃ = length-write_at two (t + 1 + 1) bytes in
    (
      slice-set_ne h (t - h) (t + 1) n three (λ k lt e. omega arith)
          ∙ slice-write_at_before h (t - h) two (t + 1 + 1) bytes (omega arith)
          ∙ slice-set_ne h (t - h) (t + 1) 0 one (λ k lt e. omega arith)
          ∙ slice-set_ne h (t - h) t tag base (λ k lt e. omega arith),
      get_or-set_ne three (t + 1) t n 0 (λ e. omega arith)
          ∙ get_or-write_at_before two (t + 1 + 1) bytes t (omega arith)
          ∙ get_or-set_ne one (t + 1) t 0 0 (λ e. omega arith)
          ∙ get_or-set_self base t tag 0 (omega arith),
      get_or-set_self three (t + 1) n 0 (omega arith),
      slice-set_ne (t + 1 + 1) n (t + 1) n three (λ k lt e. omega arith)
          ∙ slice-write_at two (t + 1 + 1) bytes n (omega arith) (omega arith)
          ∙ slice-whole bytes,
    )

item_put_lem :
    (tag : ℕ) (bytes : List ℕ) (b : Buf)
    → IsBuf b
    → b.tail + 2 + length bytes ≤ b.size
    → let c = item_put tag bytes b in
      IsBuf c
      × (c.head ≡ b.head)
      × (c.size ≡ b.size)
      × (c.tail ≡ b.tail + 2 + length bytes)
      × (content c ≡ content b ++ (tag ∷ length bytes ∷ bytes))
unfolding slice
item_put_lem tag bytes b (ht, ts, e, lt) fits =
    let t = b.tail in
    let h = b.head in
    let n = length bytes in
    let two = set (set b.base t tag) (t + 1) 0 in
    let three = write_at two (t + 1 + 1) bytes in
    let m = set three (t + 1) n in
    let len₁ = length-set b.base t tag in
    let len₂ = length-set (set b.base t tag) (t + 1) 0 in
    let len₃ = length-write_at two (t + 1 + 1) bytes in
    let len₄ = length-set three (t + 1) n in
    let (before, at_tag, at_len, behind) = item_bytes tag bytes h t b.base ht (omega arith) in
    let item : slice t (suc (suc n)) m ≡ tag ∷ n ∷ bytes =
      ap₂ (λ (x : ℕ) (xs : List ℕ). x ∷ xs) at_tag
        (ap₂ (λ (x : ℕ) (xs : List ℕ). x ∷ xs)
          (ap (λ (k : ℕ). get_or m k 0) {x = suc t} {y = t + 1} (omega arith) ∙ at_len)
          (ap (λ (k : ℕ). slice k n m) {x = suc (suc t)} {y = t + 1 + 1} (omega arith) ∙ behind)) in
    (
      (omega arith, omega arith, omega arith, lt),
      refl,
      refl,
      omega arith,
      ap (λ (k : ℕ). slice h k m) {x = t + 1 + 1 + n - h} {y = t - h + (suc (suc n))} (omega arith)
          ∙ slice-add h (t - h) (suc (suc n)) m
          ∙ ap₂ (λ (xs ys : List ℕ). xs ++ ys) before
              (ap (λ (k : ℕ). slice k (suc (suc n)) m) {x = h + (t - h)} {y = t} (omega arith)
                ∙ item),
    )

-- The items put one after the other.
abbrev pub put_all : List Item → Builder → Builder
put_all [] w = w
put_all ((tag, bytes) ∷ is) w = put_all is (put_opaque tag bytes w)

pub put_all-encode :
    (items : List Item) (b : Buf) (len : ℕ) (lenp : Option ℕ)
    → AreItems items
    → IsBuf b
    → b.tail + length (encode items) ≤ b.size
    → let w = put_all items (working b len lenp) in
      (w.error ≡ false) × IsBuf w.buf × (content w.buf ≡ content b ++ encode items)
put_all-encode [] b len lenp are wf fits = (refl, wf, sym (append-nil (content b)))
put_all-encode ((tag, bytes) ∷ is) b len lenp (is_item, are) wf fits =
    let n = length-append bytes (encode is) in
    let c = item_put tag bytes b in
    let (wf', head', size', tail', put_here) = item_put_lem tag bytes b wf (omega arith) in
    let (fine, wf'', put_rest) = put_all-encode is c (length bytes) none are wf' (omega arith) in
    let goal : Builder → Type 0 = λ v.
      let w = put_all is v in
      (w.error ≡ false)
      × IsBuf w.buf
      × (content w.buf ≡ content b ++ (tag ∷ length bytes ∷ (bytes ++ encode is))) in
    subst goal (sym (put_opaque-fits tag bytes b len lenp is_item wf (omega arith))) (
      fine,
      wf'',
      put_rest
          ∙ ap (λ (xs : List ℕ). xs ++ encode is) put_here
          ∙ append_assoc (content b) (tag ∷ length bytes ∷ bytes) (encode is),
    )
