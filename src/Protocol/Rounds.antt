-- ===== src/Protocol/Rounds.antt =====
-- One round of the analysis of the answer to reset, in protocol.c and in atr.c.
use open_pgpcard_emu.Base.{
  ℕ, zero, suc, ◌+◌, ◌-◌, ◌^◌, ◌≤◌, ◌<◌, ◌≡◌, refl, ap, ◌∙◌, sym, bit_and, bit_or, Bool, true,
  false, List, arith, ℤ, pos, negsuc, is_neg, ltb, ◌==◌, ◌!=◌, ◌&&◌, ◌||◌, if◌then◌else◌, get_or,
  Option, none, some, Bool-cases, inl, inr,
}
use open_pgpcard_emu.Base.Bits.{all_below, all_below_sound}
use open_pgpcard_emu.Atr.{
  AtrInfo, Scan, note_protocol, take_ta, take_tb, take_tc, take_interface, end_scan, atr_rounds,
  count_bits, has_bit,
}
use open_pgpcard_emu.Protocol.Select.{Named, name_protocol, walk}

-- What both analyses keep of the protocols.
abbrev pub named_of : AtrInfo → Named
named_of info = record { supported = info.supported; def_proto = info.default_protocol }

note-name :
    (td : ℕ) (info : AtrInfo) → named_of (note_protocol td info) ≡ name_protocol td (named_of info)
unfolding note_protocol name_protocol
note-name td info =
    let make : ℤ → Named =
      λ d. record { supported = bit_or info.supported (2 ^ bit_and td 0x0F); def_proto = d } in
    ap make (go info.default_protocol)
  where
    go :
        (z : ℤ)
        → elim z as (λ _. ℤ) [ pos p ↦ pos p | negsuc _ ↦ pos (bit_and td 0x0F) ]
          ≡ (if is_neg z then pos (bit_and td 0x0F) else z)
    go (pos p) = refl
    go (negsuc n) = refl

-- A bit of the announcement, as a number of bytes.
abbrev pub one_if : Bool → ℕ
one_if b = if b then 1 else 0

announced_bits : ℕ → ℕ
announced_bits td =
    one_if (has_bit td 0x10)
    + one_if (has_bit td 0x20)
    + one_if (has_bit td 0x40)
    + one_if (has_bit td 0x80)

count_table : all_below 256 (λ td. count_bits (bit_and td 0xF0) == announced_bits td) ≡ true
unfolding all_below count_bits announced_bits
count_table = refl

count_bits-announced : (td : ℕ) → td < 256 → count_bits (bit_and td 0xF0) ≡ announced_bits td
count_bits-announced td h = ground (
  arith,
  all_below_sound 256 (λ k. count_bits (bit_and k 0xF0) == announced_bits k) td count_table h,
)

-- What a step over an interface byte keeps, and the index behind it.
abbrev Skips : Bool → Scan → Scan → Type 0
Skips there s t = (named_of t.info ≡ named_of s.info) × (t.len ≡ s.len) × (t.n ≡ s.n + one_if there)

take_ta-Skips :
    (atr : List ℕ) (m td : ℕ) (s : Scan) → Skips (has_bit td 0x10) s (take_ta atr m td s)
unfolding take_ta
take_ta-Skips atr m td s = elim (Bool-cases (has_bit td 0x10)) [
  | inl there ↦ rw there (refl, refl, refl)
  | inr missing ↦ rw missing (refl, refl, omega arith)
]

take_tb-Skips :
    (atr : List ℕ) (m td : ℕ) (s : Scan) → Skips (has_bit td 0x20) s (take_tb atr m td s)
unfolding take_tb
take_tb-Skips atr m td s = elim (Bool-cases (has_bit td 0x20)) [
  | inl there ↦ rw there (refl, refl, refl)
  | inr missing ↦ rw missing (refl, refl, omega arith)
]

take_tc-Skips :
    (atr : List ℕ) (m td : ℕ) (s : Scan) → Skips (has_bit td 0x40) s (take_tc atr m td s)
unfolding take_tc
take_tc-Skips atr m td s = elim (Bool-cases (has_bit td 0x40)) [
  | inl there ↦ rw there (refl, refl, refl)
  | inr missing ↦ rw missing (refl, refl, omega arith)
]

pub take_interface_lem :
    (atr : List ℕ) (m td : ℕ) (s : Scan)
    → td < 256
    → let t = take_interface atr m td s in
      (named_of t.info ≡ named_of s.info)
      × (t.len ≡ s.len)
      × (t.n + one_if (has_bit td 0x80) ≡ s.n + count_bits (bit_and td 0xF0))
      × (s.n ≤ t.n)
unfolding take_interface announced_bits
take_interface_lem atr m td s h =
    let bits = count_bits-announced td h in
    let a = take_ta atr m td s in
    let b = take_tb atr m td a in
    let (name_a, len_a, n_a) = take_ta-Skips atr m td s in
    let (name_b, len_b, n_b) = take_tb-Skips atr m td a in
    let (name_c, len_c, n_c) = take_tc-Skips atr m td b in
    (name_c ∙ name_b ∙ name_a, len_c ∙ len_b ∙ len_a, omega arith, omega arith)

pub end_scan_lem : (s : Scan) (info : AtrInfo) → end_scan s ≡ some info → s.info ≡ info
unfolding end_scan
end_scan_lem s info e = ground arith

-- A round of atr.c: the protocol that its TD byte names, and its interface bytes.
abbrev pub td_of : List ℕ → Scan → ℕ
td_of atr s = get_or atr (s.n - 1) 0

abbrev pub noted : List ℕ → Scan → Scan
noted atr s = if s.n == 2 then s else record s { info = note_protocol (td_of atr s) s.info }

abbrev pub taken : List ℕ → ℕ → Scan → Scan
taken atr m s = take_interface atr m (td_of atr s) (noted atr s)

abbrev pub next : List ℕ → ℕ → Scan → Scan
next atr m s = let t = taken atr m s in record t { n = t.n + 1 }

-- What a round gives that is not refused.
not_refused :
    (more refused : Bool) (here stopped : Option AtrInfo) (info : AtrInfo)
    → more ≡ true
    → (if more then (if refused then none else here) else stopped) ≡ some info
    → here ≡ some info
not_refused true true here stopped info m e = absurd (ground arith)
not_refused true false here stopped info m e = e
not_refused false refused here stopped info m e = absurd (ground arith)

pub atr_rounds-suc :
    (left m : ℕ) (atr : List ℕ) (s : Scan) (info : AtrInfo)
    → s.n < s.len
    → atr_rounds (suc left) m atr s ≡ some info
    → (if has_bit (td_of atr s) 0x80
        then atr_rounds left (suc m) atr (next atr m s)
        else end_scan (taken atr m s))
      ≡ some info
unfolding atr_rounds
atr_rounds-suc left m atr s info more e =
    not_refused (ltb s.n s.len)
      (let k = count_bits (bit_and (td_of atr s) 0xF0) in k == 0 || ltb s.len (s.n + k))
      (if has_bit (td_of atr s) 0x80
        then atr_rounds left (suc m) atr (next atr m s)
        else end_scan (taken atr m s))
      (some s.info) info (ground arith) e

pub atr_rounds_at_end :
    (left m : ℕ) (atr : List ℕ) (s : Scan) → s.len ≤ s.n → atr_rounds left m atr s ≡ some s.info
unfolding atr_rounds
atr_rounds_at_end zero m atr s over = ground arith
atr_rounds_at_end (suc left) m atr s over =
    let no_more : ltb s.n s.len ≡ false = ground arith in rw no_more refl

pub no_rounds :
    (m : ℕ) (atr : List ℕ) (s : Scan) (info : AtrInfo)
    → s.n < s.len
    → ¬ (atr_rounds zero m atr s ≡ some info)
unfolding atr_rounds
no_rounds m atr s info more e = ground arith

pub walk-zero :
    (atr : List ℕ) (len n : ℕ) (named result : Named) → walk zero atr len n named ≡ some result → ⊥
unfolding walk
walk-zero atr len n named result e = ground arith

pub walk-suc :
    (fuel : ℕ) (atr : List ℕ) (len n : ℕ) (named : Named)
    → let td = get_or atr (n - 1) 0 in
      let named' = if n != 2 then name_protocol td named else named in
      let n' = n + count_bits (bit_and td 0xF0) in
      walk (suc fuel) atr len n named
      ≡ (if ltb n' len && has_bit td 0x80 then walk fuel atr len n' named' else some named')
unfolding walk
walk-suc fuel atr len n named = refl

pub noted-len : (atr : List ℕ) (s : Scan) → ((noted atr s).len ≡ s.len) × ((noted atr s).n ≡ s.n)
noted-len atr s = elim (Bool-cases (s.n == 2)) [
  | inl first ↦ rw first (refl, refl)
  | inr later ↦ rw later (refl, refl)
]

pub noted-named :
    (atr : List ℕ) (s : Scan)
    → (if s.n != 2 then name_protocol (td_of atr s) (named_of s.info) else named_of s.info)
      ≡ named_of (noted atr s).info
noted-named atr s = elim (Bool-cases (s.n == 2)) [
  | inl first ↦ let same : (s.n != 2) ≡ false = ground arith in rw (first, same) refl
  | inr later ↦
      let other : (s.n != 2) ≡ true = ground arith in
      rw (later, other) (sym (note-name (td_of atr s) s.info))
]
