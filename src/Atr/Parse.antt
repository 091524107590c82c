-- ===== src/Atr/Parse.antt =====
-- What the analysis of an answer to reset establishes.
use open_pgpcard_emu.Base.{
  subst, ℕ, zero, suc, ◌+◌, ◌-◌, ◌<◌, ◌≡◌, refl, bit_and, Bool, true, false, List, arith, ℤ, pos,
  negsuc, ltb, ◌==◌, if◌then◌else◌, length, get_or, Option, none, some, Bool-cases, inl, inr,
  AreBytes,
}
use open_pgpcard_emu.Base.Bits.{bit_and-digit-lt, get_or-lt}
use open_pgpcard_emu.Atr.{
  AtrInfo, Scan, blank_info, note_protocol, take_interface, end_scan, atr_rounds, atr_parse,
  default_t0,
}

-- The default protocol is one of the sixteen, or no protocol was named yet.
is_named : AtrInfo → Bool
is_named info = elim info.default_protocol [ pos p ↦ ltb p 16 | negsuc _ ↦ info.supported == 0 ]

note_protocol-is_named :
    (td : ℕ) (info : AtrInfo)
    → td < 256
    → is_named info ≡ true
    → is_named (note_protocol td info) ≡ true
unfolding is_named note_protocol
note_protocol-is_named td info h named = ground (arith, bit_and-digit-lt td h)

take_interface-is_named :
    (atr : List ℕ) (m td : ℕ) (s : Scan)
    → is_named s.info ≡ true
    → is_named (take_interface atr m td s).info ≡ true
unfolding is_named take_interface
take_interface-is_named atr m td s named = ground arith

end_scan-is_named :
    (s : Scan) (info : AtrInfo)
    → is_named s.info ≡ true
    → end_scan s ≡ some info
    → is_named info ≡ true
unfolding end_scan
end_scan-is_named s info named e = ground arith

atr_rounds-is_named :
    (left m : ℕ) (atr : List ℕ) (s : Scan) (info : AtrInfo)
    → AreBytes atr
    → is_named s.info ≡ true
    → atr_rounds left m atr s ≡ some info
    → is_named info ≡ true
unfolding atr_rounds
atr_rounds-is_named zero m atr s info bs named e = ground arith
atr_rounds-is_named (suc left) m atr s info bs named e =
    let td = get_or atr (s.n - 1) 0 in
    let noted = if s.n == 2 then s else record s { info = note_protocol td s.info } in
    let taken = take_interface atr m td noted in
    ground (
      arith,
      note_protocol-is_named td s.info (get_or-lt atr (s.n - 1) bs) named,
      take_interface-is_named atr m td noted,
      end_scan-is_named taken info,
      atr_rounds-is_named left (suc m) atr (record taken { n = taken.n + 1 }) info bs,
    )

default_t0-named :
    (info : AtrInfo)
    → is_named info ≡ true
    → (p : ℕ) × ((default_t0 info).default_protocol ≡ pos p) × (p < 16)
unfolding is_named default_t0
default_t0-named info named = elim (Bool-cases (info.supported == 0)) [
  | inl none_named ↦ rw (none_named) (0, refl, omega arith)
  | inr some_named ↦ rw (some_named) (named_protocol info.default_protocol some_named named)
]
  where
    named_protocol :
        (z : ℤ)
        → (info.supported == 0) ≡ false
        → elim z as (λ _. Bool) [ pos p ↦ ltb p 16 | negsuc _ ↦ info.supported == 0 ] ≡ true
        → (p : ℕ) × (z ≡ pos p) × (p < 16)
    named_protocol (pos p) ne e = (p, refl, ground arith)
    named_protocol (negsuc n) ne e = absurd (ground arith)

blank_info-is_named : is_named blank_info ≡ true
unfolding is_named blank_info
blank_info-is_named = refl

scanned-default :
    (r : Option AtrInfo) (info : AtrInfo)
    → ((i : AtrInfo) → r ≡ some i → is_named i ≡ true)
    → elim r as (λ _. Option AtrInfo) [ none ↦ none | some i ↦ some (default_t0 i) ] ≡ some info
    → (p : ℕ) × (info.default_protocol ≡ pos p) × (p < 16)
scanned-default none info named e = absurd (ground arith)
scanned-default (some i) info named e =
    subst (λ (j : AtrInfo). (p : ℕ) × (j.default_protocol ≡ pos p) × (p < 16)) {x = default_t0 i}
      {y = info} (ground arith) (default_t0-named i (named i refl))

-- For an ATR of bytes that `ifd_atr_parse` accepts, the default protocol it stores is a protocol
-- number below 16.
pub atr_parse-default :
    (atr : List ℕ) (info : AtrInfo)
    → AreBytes atr
    → atr_parse atr ≡ some info
    → (p : ℕ) × (info.default_protocol ≡ pos p) × (p < 16)
unfolding atr_parse
atr_parse-default atr info bs e =
    let start : Scan = record {
      info = blank_info;
      n = 2;
      len = length atr - bit_and (get_or atr 1 0) 0x0F;
    } in
    scanned-default (atr_rounds 4 0 atr start) info
      (λ i. atr_rounds-is_named 4 0 atr start i bs blank_info-is_named) (ground arith)
