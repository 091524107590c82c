-- ===== src/Tlv/Items.antt =====
-- Items of tag-length-value data with small tags, as they lie in a buffer, and what `ct_tlv_parse`
-- makes of them.
use open_pgpcard_emu.Base.{
  ℕ, zero, suc, ◌+◌, ◌-◌, ◌≤◌, ◌<◌, ◌≡◌, ◌^◌, refl, ap, ap₂, ◌∙◌, sym, bit_and, Bool, true, false,
  List, [], ◌∷◌, ◌++◌, arith, ◌||◌, ◌==◌, ◌!=◌, ltb, if◌then◌else◌, Option, none, some, get_or,
  length, length-append,
}
use open_pgpcard_emu.Base.Slice.{slice, length-slice}
use open_pgpcard_emu.Buffer.{Buf, avail, get, add32}
use open_pgpcard_emu.Tlv.Parser.{
  Parser, Header, tag_large, read_header, store_item, parse_items, get_opaque,
}

-- A tag and the bytes under it.
abbrev pub Item : Type 0
Item = ℕ × List ℕ

-- A small tag, and a length that its byte can hold.
abbrev pub IsItem : Item → Type 0
IsItem (tag, bytes) =
    (tag < 256) × (bit_and tag tag_large ≡ 0) × (1 ≤ length bytes) × (length bytes ≤ 255)

abbrev pub AreItems : List Item → Type 0
AreItems [] = Unit
AreItems (i ∷ is) = IsItem i × AreItems is

abbrev pub encode : List Item → List ℕ
encode [] = []
encode ((tag, bytes) ∷ is) = tag ∷ length bytes ∷ (bytes ++ encode is)

-- The first of two that there is.
abbrev pub or_else : Option (List ℕ) → Option (List ℕ) → Option (List ℕ)
or_else (some x) y = some x
or_else none y = y

-- The last item with the tag.
abbrev pub find : ℕ → List Item → Option (List ℕ)
find tag [] = none
find tag ((t, bytes) ∷ is) = or_else (find tag is) (if tag == t then some bytes else none)

or_else_assoc : (x y z : Option (List ℕ)) → or_else (or_else x y) z ≡ or_else x (or_else y z)
or_else_assoc (some x) y z = refl
or_else_assoc none y z = refl

split-cons :
    (n h a c : ℕ) (base rest : List ℕ)
    → slice h n base ≡ a ∷ c ∷ rest
    → (get_or base h 0 ≡ a)
      × (get_or base (suc h) 0 ≡ c)
      × (slice (suc (suc h)) (n - 2) base ≡ rest)
      × (n ≡ 2 + length rest)
unfolding slice
split-cons zero h a c base rest e = absurd (ground arith)
split-cons (suc zero) h a c base rest e = absurd (ground arith)
split-cons (suc (suc n)) h a c base rest e =
    let tail₁ : List ℕ → List ℕ = λ xs. elim xs [ [] ↦ [] | x ∷ ys ↦ ys ] in
    let tails = ap (λ xs. tail₁ (tail₁ xs)) e in
    (
      ap (λ (xs : List ℕ). get_or xs 0 0) e,
      ap (λ (xs : List ℕ). get_or xs 1 0) e,
      ap (λ (k : ℕ). slice (suc (suc h)) k base) (omega arith) ∙ tails,
      omega (arith, ap length e, length-slice (suc (suc h)) n base),
    )

split-append :
    (bytes rest : List ℕ) (n o : ℕ) (base : List ℕ)
    → slice o n base ≡ bytes ++ rest
    → (slice o (length bytes) base ≡ bytes)
      × (slice (o + length bytes) (n - length bytes) base ≡ rest)
unfolding slice
split-append [] rest n o base e =
    (refl, ap₂ (λ (k l : ℕ). slice k l base) (omega arith) (omega arith) ∙ e)
split-append (b ∷ bytes) rest zero o base e = absurd (ground arith)
split-append (b ∷ bytes) rest (suc n) o base e =
    let tail₁ : List ℕ → List ℕ = λ xs. elim xs [ [] ↦ [] | x ∷ ys ↦ ys ] in
    let (here, behind) = split-append bytes rest n (suc o) base (ap tail₁ e) in
    (
      ap₂ (◌∷◌) (ap (λ (xs : List ℕ). get_or xs 0 0) e) here,
      ap₂ (λ (k l : ℕ). slice k l base) (omega arith) (omega arith) ∙ behind,
    )

pub avail-sub : (b : Buf) → b.tail < 2 ^ 32 → b.head ≤ b.tail → avail b ≡ b.tail - b.head
unfolding avail
avail-sub b small ordered = omega arith

get-advances :
    (k : ℕ) (b : Buf)
    → b.tail < 2 ^ 32
    → b.head ≤ b.tail
    → k ≤ b.tail - b.head
    → (get k b).2 ≡ record b { head = b.head + k }
unfolding get
get-advances k b small ordered fits =
    let enough : ltb (avail b) k ≡ false = ground (arith, avail-sub b small ordered) in
    let head' : add32 b.head k ≡ b.head + k = omega arith in rw (enough, head') refl

read_header-item :
    (h tag len : ℕ) (base : List ℕ)
    → bit_and tag tag_large ≡ 0
    → get_or base h 0 ≡ tag
    → get_or base (suc h) 0 ≡ len
    → read_header (slice h 3 base) ≡ record { large = false; tag = tag; item_len = len; size = 2 }
unfolding read_header slice
read_header-item h tag len base plain at_tag at_len =
    let small : (bit_and tag tag_large != 0) ≡ false = ground arith in
    rw (at_tag, at_len, small) refl

-- One round of `ct_tlv_parse` at an item.
parse_items-item :
    (fuel tag : ℕ) (bytes rest : List ℕ) (p : Parser) (b : Buf)
    → b.tail < 2 ^ 32
    → b.head ≤ b.tail
    → IsItem (tag, bytes)
    → slice b.head (b.tail - b.head) b.base ≡ tag ∷ length bytes ∷ (bytes ++ rest)
    → let p' = record p { use_large_tags = p.use_large_tags || false } in
      parse_items (suc fuel) p b
      ≡ parse_items fuel
          (store_item tag (b.head + 2) (length bytes) p')
          (record b { head = b.head + (2 + length bytes) })
unfolding parse_items
parse_items-item fuel tag bytes rest p b small ordered (byte, plain, some_bytes, few) e =
    let n = b.tail - b.head in
    let len = length bytes in
    let (at_tag, at_len, behind, size) = split-cons n b.head tag len b.base (bytes ++ rest) e in
    let p' = record p { use_large_tags = p.use_large_tags || false } in
    let enough : 2 + len ≤ n = omega (arith, length-append bytes rest) in
    let body : ℕ → Header → Bool × Parser × Buf = λ a h. elim (a == 0) [
      | true ↦ (true, p, b)
      | false ↦ elim (ltb a 2) [
        | true ↦ (false, p, b)
        | false ↦ elim (ltb a h.size || (h.item_len == 0 || ltb a (h.size + h.item_len))) [
          | true ↦ (false, record p { use_large_tags = p.use_large_tags || h.large }, b)
          | false ↦
              parse_items fuel
                (store_item h.tag (b.head + h.size) h.item_len
                  (record p { use_large_tags = p.use_large_tags || h.large }))
                (get (h.size + h.item_len) b).2
        ]
      ]
    ] in
    let left : (n == 0) ≡ false = ground arith in
    let header : ltb n 2 ≡ false = ground arith in
    let whole : (ltb n 2 || (len == 0 || ltb n (2 + len))) ≡ false = ground arith in
    ap₂ body (avail-sub b small ordered)
      (read_header-item b.head tag len b.base plain at_tag at_len)
    ∙ rw (left, header, whole)
        (ap (parse_items fuel (store_item tag (b.head + 2) len p'))
          (get-advances (2 + len) b small ordered enough))

parse_items_at_end :
    (fuel : ℕ) (p : Parser) (b : Buf) → avail b ≡ 0 → parse_items fuel p b ≡ (true, p, b)
unfolding parse_items
parse_items_at_end zero p b none_left = refl
parse_items_at_end (suc fuel) p b none_left =
    let at_end : (avail b == 0) ≡ true = ground arith in rw (parse_items, at_end) refl

get_opaque-store_item :
    (base : List ℕ) (tag t index : ℕ) (bytes : List ℕ) (p : Parser) (large : Bool)
    → slice index (length bytes) base ≡ bytes
    → get_opaque base (store_item t index (length bytes) (record p { use_large_tags = large })) tag
      ≡ or_else (if tag == t then some bytes else none) (get_opaque base p tag)
unfolding get_opaque store_item
get_opaque-store_item base tag t index bytes p large here = go (tag == t)
  where
    go :
        (same : Bool)
        → elim (if same then some index else p.val tag) as (λ _. Option (List ℕ)) [
          | none ↦ none
          | some i ↦ some (slice i (if same then length bytes else p.len tag) base)
        ]
          ≡ or_else
              (if same then some bytes else none)
              (elim (p.val tag) as (λ _. Option (List ℕ)) [
                | none ↦ none
                | some i ↦ some (slice i (p.len tag) base)
              ])
    go true = ap some here
    go false = refl

-- What `ct_tlv_parse` finds under every tag behind the items, with more rounds than items: the last
-- item with the tag, or what was there before.
pub parse_items-encode :
    (items : List Item) (fuel : ℕ) (p : Parser) (b : Buf)
    → b.tail < 2 ^ 32
    → b.head ≤ b.tail
    → AreItems items
    → slice b.head (b.tail - b.head) b.base ≡ encode items
    → length items ≤ fuel
    → let out = parse_items fuel p b in
      (out.0 ≡ true)
      × ((tag : ℕ)
          → get_opaque b.base out.1 tag ≡ or_else (find tag items) (get_opaque b.base p tag))
parse_items-encode [] fuel p b small ordered are e enough =
    let none_left : avail b ≡ 0 = omega (
      arith,
      avail-sub b small ordered,
      ap length e,
      length-slice b.head (b.tail - b.head) b.base,
    ) in
    rw (parse_items_at_end fuel p b none_left) (refl, λ tag. refl)
parse_items-encode ((t, bytes) ∷ is) zero p b small ordered are e enough = absurd (omega arith)
parse_items-encode ((t, bytes) ∷ is) (suc fuel) p b small ordered (is_item, are) e enough =
    let n = b.tail - b.head in
    let len = length bytes in
    let (_, _, behind, size) = split-cons n b.head t len b.base (bytes ++ encode is) e in
    let (here, rest) = split-append bytes (encode is) (n - 2) (suc (suc b.head)) b.base behind in
    let p' =
      store_item t (b.head + 2) len (record p { use_large_tags = p.use_large_tags || false }) in
    let b' = record b { head = b.head + (2 + len) } in
    let within : 2 + len ≤ n = omega (arith, length-append bytes (encode is)) in
    let rest' : slice (b.head + (2 + len)) (b.tail - (b.head + (2 + len))) b.base ≡ encode is =
      ap₂ (λ (k l : ℕ). slice k l b.base) (omega arith) (omega arith) ∙ rest in
    let here' : slice (b.head + 2) len b.base ≡ bytes =
      ap (λ (k : ℕ). slice k len b.base) (omega arith) ∙ here in
    let (done, found) =
      parse_items-encode is fuel p' b' small (omega arith) are rest' (omega arith) in
    rw (parse_items-item fuel t bytes (encode is) p b small ordered is_item e) (
      done,
      λ tag.
          found tag
          ∙ ap (or_else (find tag is)) (
              get_opaque-store_item b.base tag t (b.head + 2) bytes p (p.use_large_tags || false)
                here')
          ∙ sym (
              or_else_assoc (find tag is) (if tag == t then some bytes else none)
                (get_opaque b.base p tag)),
    )
