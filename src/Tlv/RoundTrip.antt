-- ===== src/Tlv/RoundTrip.antt =====
-- What the builder of tlv.c puts into a buffer is what its parser finds there.
use open_pgpcard_emu.Base.{
  ℕ, ◌-◌, ◌≤◌, ◌<◌, ◌≡◌, ◌^◌, refl, ap, ◌∙◌, true, false, List, [], ◌∷◌, arith, Option, none, some,
  length, length-append,
}
use open_pgpcard_emu.Base.Slice.{slice, length-slice}
use open_pgpcard_emu.Buffer
use open_pgpcard_emu.Buffer.{Buf, avail, tailroom, put, put_fitting, putc, add32}
use open_pgpcard_emu.Buffer.Queue.{IsBuf}
use open_pgpcard_emu.Tlv.Builder.{init}
use open_pgpcard_emu.Tlv.Items.{
  Item, AreItems, encode, or_else, find, avail-sub, parse_items-encode,
}
use open_pgpcard_emu.Tlv.Parser.{blank, parse, get_opaque}
use open_pgpcard_emu.Tlv.Built.{working, put_all, put_all-encode}

length_items-le : (items : List Item) → length items ≤ length (encode items)
length_items-le [] = omega arith
length_items-le ((tag, bytes) ∷ is) =
    omega (arith, length-append bytes (encode is), length_items-le is)

or_else-none : (x : Option (List ℕ)) → or_else x none ≡ x
or_else-none (some x) = refl
or_else-none none = refl

-- Items with small tags, of 1 to 255 bytes each, that `ct_tlv_put_opaque` puts one after the other
-- into a buffer with room for them, are found again: no error is reported, `ct_tlv_parse` of the
-- buffer succeeds, and `ct_tlv_get_opaque` gives for every tag the bytes of the last item with that
-- tag, and nothing for a tag that none has.
pub parse-put_all :
    (items : List Item) (memory : List ℕ)
    → AreItems items
    → length (encode items) ≤ length memory
    → length memory < 2 ^ 32
    → let w = put_all items (init (Buffer.init memory (length memory)) false) in
      let out = parse blank w.buf in
      (w.error ≡ false)
      × (out.0 ≡ true)
      × ((tag : ℕ) → get_opaque w.buf.base out.1 tag ≡ find tag items)
unfolding init Buffer.init parse blank get_opaque slice
parse-put_all items memory are fits small =
    let b = Buffer.init memory (length memory) in
    let w = put_all items (working b 0 none) in
    let wf : IsBuf b = (omega arith, omega arith, omega arith, omega arith) in
    let (fine, wf', put_there) = put_all-encode items b 0 none are wf (omega arith) in
    let (ht, ts, e, lt) = wf' in
    let len = length-slice w.buf.head (w.buf.tail - w.buf.head) w.buf.base in
    let same = ap length put_there in
    let enough : length items ≤ avail w.buf =
      omega (arith, avail-sub w.buf (omega arith) ht, length_items-le items) in
    let (parsed, found) =
      parse_items-encode items (avail w.buf) blank w.buf (omega arith) ht are put_there enough in
    (fine, parsed, λ tag. found tag ∙ or_else-none (find tag items))
