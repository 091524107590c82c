-- ===== src/Atr.antt =====
-- The answer to reset and the protocol selection of OpenCTDriver/src/ifd/atr.c, with
-- `ifd_count_bits` of utils.c.
pub mod Pts
pub mod Parse
use open_pgpcard_emu.Base.{
  ℕ, zero, suc, ◌+◌, ◌-◌, ◌*◌, ◌/◌, ◌^◌, bit_and, bit_or, bit_xor, Bool, true, false, not, List, [],
  ◌∷◌, ◌++◌, ◌&&◌, ◌||◌, ◌==◌, ◌!=◌, ltb, if◌then◌else◌, ℤ, pos, negsuc, Option, none, some, set,
  get_or, length, take, drop, replicate,
}

abbrev pub bcount : List ℕ
bcount = 0 ∷ 1 ∷ 1 ∷ 2 ∷ 1 ∷ 2 ∷ 2 ∷ 3 ∷ 1 ∷ 2 ∷ 2 ∷ 3 ∷ 2 ∷ 3 ∷ 3 ∷ 4 ∷ []

-- `for (num = 0; word; word >>= 4)`: a 32-bit word has eight digits.
unfoldable pub count_bits_loop : ℕ → ℕ → ℕ → ℕ
count_bits_loop zero word num = num
count_bits_loop (suc n) word num =
    let rest = count_bits_loop n (word / 16) (num + get_or bcount (bit_and word 0xF) 0) in
    if word == 0 then num else rest

unfoldable pub count_bits : ℕ → ℕ
unfolding count_bits_loop
count_bits word = count_bits_loop 8 word 0

abbrev pub absent : ℤ
absent = negsuc 0

-- `ifd_atr_info_t`: a field that was not there holds -1.
pub record AtrInfo : Type 0 where
  pub ta : List ℤ
  pub tb : List ℤ
  pub tc : List ℤ
  pub supported : ℕ
  pub default_protocol : ℤ

-- `memset` makes four zeros, and the loop `for (n = 0; n < 3; n++)` writes three of them.
unfoldable pub blank_info : AtrInfo
blank_info =
    let fields = absent ∷ absent ∷ absent ∷ pos 0 ∷ [] in
    record { ta = fields; tb = fields; tc = fields; supported = 0; default_protocol = absent }

-- The variables of the loop of `ifd_atr_parse`.
pub record Scan : Type 0 where
  pub info : AtrInfo
  pub n : ℕ
  pub len : ℕ

abbrev pub has_bit : ℕ → ℕ → Bool
has_bit word mask = bit_and word mask != 0

abbrev pub byte_at : List ℕ → ℕ → ℤ
byte_at atr n = pos (get_or atr n 0)

-- The protocol that a byte TD other than T0 names.
unfoldable pub note_protocol : ℕ → AtrInfo → AtrInfo
note_protocol td info =
    let prot = bit_and td 0x0F in
    record info {
      supported = bit_or info.supported (2 ^ prot);
      default_protocol = elim info.default_protocol [ pos p ↦ pos p | negsuc _ ↦ pos prot ];
    }

-- The interface bytes that `td` announces, from index `n` on, into the fields of round `m`.
unfoldable pub take_ta : List ℕ → ℕ → ℕ → Scan → Scan
take_ta atr m td s =
    if has_bit td 0x10
    then record s { info = record s.info { ta = set s.info.ta m (byte_at atr s.n) }; n = s.n + 1 }
    else s

unfoldable pub take_tb : List ℕ → ℕ → ℕ → Scan → Scan
take_tb atr m td s =
    if has_bit td 0x20
    then record s { info = record s.info { tb = set s.info.tb m (byte_at atr s.n) }; n = s.n + 1 }
    else s

unfoldable pub take_tc : List ℕ → ℕ → ℕ → Scan → Scan
take_tc atr m td s =
    if has_bit td 0x40
    then record s { info = record s.info { tc = set s.info.tc m (byte_at atr s.n) }; n = s.n + 1 }
    else s

unfoldable pub take_interface : List ℕ → ℕ → ℕ → Scan → Scan
unfolding take_ta take_tb take_tc
take_interface atr m td s = take_tc atr m td (take_tb atr m td (take_ta atr m td s))

-- The last round, with no TD byte behind it: a card with more than T=0 appends a check byte.
unfoldable pub end_scan : Scan → Option AtrInfo
end_scan s =
    let len = if has_bit s.info.supported 0xFFFF_FFFE then s.len - 1 else s.len in
    if ltb s.n len then none else some s.info

-- The loop, with `left` rounds until `m > 3`; `none` is IFD_ERROR_INVALID_ATR.
unfoldable pub atr_rounds : ℕ → ℕ → List ℕ → Scan → Option AtrInfo
unfolding note_protocol take_interface end_scan count_bits
atr_rounds zero m atr s = if ltb s.n s.len then none else some s.info
atr_rounds (suc left) m atr s =
    let td = get_or atr (s.n - 1) 0 in
    let noted = if s.n == 2 then s else record s { info = note_protocol td s.info } in
    let k = count_bits (bit_and td 0xF0) in
    let taken = take_interface atr m td noted in
    let rest = atr_rounds left (suc m) atr (record taken { n = taken.n + 1 }) in
    if ltb s.n s.len
    then (if k == 0 || ltb s.len (s.n + k)
        then none
        else if has_bit td 0x80
        then rest
        else end_scan taken)
    else some s.info

-- The default where no protocol is named.
unfoldable pub default_t0 : AtrInfo → AtrInfo
default_t0 info =
    if info.supported == 0 then record info { supported = 1; default_protocol = pos 0 } else info

-- `none` is IFD_ERROR_INVALID_ATR.
unfoldable pub atr_parse : List ℕ → Option AtrInfo
unfolding blank_info atr_rounds default_t0
atr_parse atr =
    let historical = bit_and (get_or atr 1 0) 0x0F in
    if ltb (length atr) (2 + historical)
    then none
    else elim (atr_rounds 4 0 atr
        (record { info = blank_info; n = 2; len = length atr - historical })) [
          | none ↦ none
          | some info ↦ some (default_t0 info)
        ]

abbrev pub error_not_supported : ℤ
error_not_supported = negsuc 3

abbrev pub error_comm_error : ℤ
error_comm_error = negsuc 4

abbrev pub error_buffer_too_small : ℤ
error_buffer_too_small = negsuc 10

abbrev pub error_incompatible_device : ℤ
error_incompatible_device = negsuc 15

abbrev pub ta0 : AtrInfo → ℤ
ta0 info = get_or info.ta 0 absent

abbrev pub tc0 : AtrInfo → ℤ
tc0 info = get_or info.tc 0 absent

abbrev pub is_present : ℤ → Bool
is_present (pos b) = true
is_present (negsuc b) = false

abbrev pub value : ℤ → ℕ
value (pos b) = b
value (negsuc b) = 0

abbrev pub is_255 : ℤ → Bool
is_255 (pos b) = b == 255
is_255 (negsuc b) = false

unfoldable pub xor_all : ℕ → List ℕ → ℕ
xor_all pck [] = pck
xor_all pck (b ∷ bytes) = xor_all (bit_xor pck b) bytes

-- `ptsbuf` before the check byte, by `info->TA[0]` and the test `info->TC[0] == 255`.
unfoldable pub pts_body : ℤ → Bool → ℕ → List ℕ
pts_body ta with_tc protocol =
    let with_ta = is_present ta in
    let format = if with_ta then bit_or protocol 0x10 else protocol in
    let format' = if with_tc then bit_or format 0x20 else format in
    0xFF ∷ format' ∷ ((if with_ta then value ta ∷ [] else []) ++ (if with_tc then 1 ∷ [] else []))

-- The request with its check byte.
unfoldable pub pts_request : ℤ → Bool → ℕ → List ℕ
unfolding pts_body xor_all
pts_request ta with_tc protocol =
    let body = pts_body ta with_tc protocol in body ++ xor_all 0 body ∷ []

-- The return code and the bytes of the request; `protocol` is a byte.
unfoldable pub build_pts : AtrInfo → ℕ → ℕ → ℤ × List ℕ
build_pts info protocol len =
    if has_bit info.supported (2 ^ protocol)
    then (let pts = pts_request (ta0 info) (is_255 (tc0 info)) protocol in
        if ltb len (length pts) then (error_buffer_too_small, []) else (pos (length pts), pts))
    else (error_not_supported, [])

-- `for (i = 0, n = 2; i < 3 && n < len - 1; i++)`: PTS1 to PTS3 and where the loop stopped.
unfoldable pub pts_fields : ℕ → ℕ → ℕ → List ℕ → List ℤ → List ℤ × ℕ
pts_fields zero i n buf ptsr = (ptsr, n)
pts_fields (suc left) i n buf ptsr =
    let here = has_bit (get_or buf 1 0) (2 ^ (i + 4)) in
    let rest =
      pts_fields left (suc i) (if here then n + 1 else n) buf
        (if here then set ptsr i (byte_at buf n) else ptsr) in
    if ltb n (length buf - 1) then rest else (ptsr, n)

abbrev pub same_value : ℤ → ℤ → Bool
same_value (pos a) (pos b) = a == b
same_value (negsuc a) (negsuc b) = a == b
same_value _ _ = false

-- `ptsr[1] == -1 || (ptsr[1] & 1) == 0`
abbrev pub is_even_or_absent : ℤ → Bool
is_even_or_absent (pos b) = bit_and b 1 == 0
is_even_or_absent (negsuc b) = true

-- The return code, and the info, in which a refused TA1 is taken back.
unfoldable pub verify_pts : AtrInfo → List ℕ → ℤ × AtrInfo
verify_pts info buf =
    if ltb (length buf) 3
    then (error_buffer_too_small, info)
    else if get_or buf 0 0 != 0xFF
    then (error_incompatible_device, info)
    else if xor_all 0 buf != 0
    then (error_comm_error, info)
    else let (ptsr, n) = pts_fields 3 0 2 buf (absent ∷ absent ∷ absent ∷ []) in
      if ltb n (length buf - 1)
      then (error_incompatible_device, info)
      else let info' =
          if is_present (ta0 info) && not (same_value (get_or ptsr 0 absent) (ta0 info))
          then record info { ta = set info.ta 0 absent }
          else info in
        if is_255 (tc0 info) && is_even_or_absent (get_or ptsr 1 absent)
        then (error_incompatible_device, info')
        else (pos 0, info')

-- `j = +ifd_count_bits(…)` assigns.
unfoldable pub pts_complete : List ℕ → Bool
unfolding count_bits
pts_complete pts =
    if ltb (length pts) 2
    then false
    else if ltb (length pts) (count_bits (bit_and (get_or pts 1 0) 0x70) + 1)
    then false
    else true
