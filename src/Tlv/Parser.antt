-- ===== src/Tlv/Parser.antt =====
-- `ct_tlv_parse` and the functions that take items out.
use open_pgpcard_emu.Base.{
  ℕ, zero, suc, ◌+◌, ◌-◌, ◌*◌, ◌%◌, ◌^◌, bit_and, bit_or, Bool, true, false, List, [], ◌∷◌, ◌++◌,
  ◌||◌, ◌==◌, ◌!=◌, ltb, if◌then◌else◌, Option, none, some, get_or,
}
use open_pgpcard_emu.Base.Slice.{slice}
use open_pgpcard_emu.Buffer.{Buf, avail, get}

abbrev pub tag_large : ℕ
tag_large = 0x40

-- `ct_tlv_parser_t`. A pointer in `val` is the index in the memory of the buffer; `none` is NULL.
pub record Parser : Type 0 where
  pub use_large_tags : Bool
  pub val : ℕ → Option ℕ
  pub len : ℕ → ℕ

-- As the callers' `memset` leaves it.
unfoldable pub blank : Parser
blank = record { use_large_tags = false; val = λ _. none; len = λ _. 0 }

unfoldable pub store_item : ℕ → ℕ → ℕ → Parser → Parser
store_item tag index len p = record p {
  val = λ t. if t == tag then some index else p.val t;
  len = λ t. if t == tag then len else p.len t;
}

-- The header of the item at the head of the buffer: its tag, its length, and how long it is.
pub record Header : Type 0 where
  pub large : Bool
  pub tag : ℕ
  pub item_len : ℕ
  pub size : ℕ

unfoldable pub read_header : List ℕ → Header
read_header p =
    let tag = get_or p 0 0 in
    let len = get_or p 1 0 in
    if bit_and tag tag_large != 0
    then record {
      large = true;
      tag = bit_and tag 0xBF;
      item_len = len * 256 + get_or p 2 0;
      size = 3;
    }
    else record { large = false; tag = tag; item_len = len; size = 2 }

-- The loop; each round takes at least three bytes off the buffer. The flag is the return code,
-- false for -1.
unfoldable pub parse_items : ℕ → Parser → Buf → Bool × Parser × Buf
unfolding read_header store_item
parse_items zero p b = (true, p, b)
parse_items (suc fuel) p b = elim (avail b == 0) [
  | true ↦ (true, p, b)
  | false ↦
      let h = read_header (slice b.head 3 b.base) in
      let p' = record p { use_large_tags = p.use_large_tags || h.large } in
      elim (ltb (avail b) 2) [
        | true ↦ (false, p, b)
        | false ↦
            elim (ltb (avail b) h.size
              || (h.item_len == 0 || ltb (avail b) (h.size + h.item_len))) [
                | true ↦ (false, p', b)
                | false ↦
                    let (_, _, b') = get (h.size + h.item_len) b in
                    parse_items fuel (store_item h.tag (b.head + h.size) h.item_len p') b'
              ]
      ]
]

unfoldable pub parse : Parser → Buf → Bool × Parser × Buf
unfolding parse_items
parse p b = parse_items (avail b) p b

module _ (memory : List ℕ) where
  -- What `strncpy(buf, p, len)` stores: the bytes up to a NUL, then NULs.
  unfoldable pub copy_string : Bool → List ℕ → List ℕ
  copy_string ended [] = []
  copy_string ended (b ∷ bytes) =
      let ended' = ended || b == 0 in (if ended' then 0 else b) ∷ copy_string ended' bytes

  -- The memory at `buf` up to the NUL that is stored last. `size` is a `size_t`, so `size - 1`
  -- wraps.
  unfoldable pub get_string : Parser → ℕ → ℕ → Option (List ℕ)
  unfolding copy_string
  get_string p tag size = elim (p.val tag) [
    | none ↦ none
    | some i ↦
        let room = (size + 2 ^ 64 - 1) % 2 ^ 64 in
        let len = if ltb room (p.len tag) then room else p.len tag in
        some (copy_string false (slice i len memory) ++ 0 ∷ [])
  ]

  unfoldable pub get_opaque : Parser → ℕ → Option (List ℕ)
  get_opaque p tag = elim (p.val tag) [ none ↦ none | some i ↦ some (slice i (p.len tag) memory) ]

  -- The number of bytes copied, and the bytes.
  unfoldable pub get_bytes : Parser → ℕ → ℕ → ℕ × List ℕ
  get_bytes p tag size = elim (p.val tag) [
    | none ↦ (0, [])
    | some i ↦
        let len = if ltb size (p.len tag) then size else p.len tag in (len, slice i len memory)
  ]

  -- `*value <<= 8; *value |= *p++`, on an `unsigned int`
  unfoldable pub int_of : ℕ → List ℕ → ℕ
  int_of v [] = v
  int_of v (b ∷ bytes) = int_of (bit_or (v * 256 % 2 ^ 32) b) bytes

  unfoldable pub get_int : Parser → ℕ → Option ℕ
  unfolding int_of
  get_int p tag = elim (p.val tag) [
    | none ↦ none
    | some i ↦ some (int_of 0 (slice i (p.len tag) memory))
  ]
