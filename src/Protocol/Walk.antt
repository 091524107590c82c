-- ===== src/Protocol/Walk.antt =====
-- The whole walk over the answer to reset, in protocol.c and in atr.c.
use open_pgpcard_emu.Base.{
  subst, ℕ, zero, suc, ◌+◌, ◌-◌, ◌^◌, ◌≤◌, ◌<◌, ◌≡◌, refl, ap, ap₂, ◌∙◌, sym, bit_and, bit_or, Bool,
  true, false, List, arith, ℤ, pos, negsuc, is_neg, ltb, ◌==◌, ◌!=◌, ◌&&◌, if◌then◌else◌, get_or,
  Option, none, some, Bool-cases, inl, inr, AreBytes,
}
use open_pgpcard_emu.Base.Bits.{get_or-lt}
use native.Mathlib.Nat.{one-le-pow}
use open_pgpcard_emu.Base.Digits.{le-bit_or}
use open_pgpcard_emu.Atr.{AtrInfo, Scan, blank_info, end_scan, atr_rounds, count_bits, has_bit}
use open_pgpcard_emu.Protocol.Select.{Named, name_protocol, walk}
use open_pgpcard_emu.Protocol.Rounds.{
  named_of, one_if, take_interface_lem, end_scan_lem, td_of, noted, taken, next, atr_rounds-suc,
  atr_rounds_at_end, no_rounds, walk-zero, walk-suc, noted-len, noted-named,
}

-- The branch that a test decides.
branch :
    {A : Type 0} (b : Bool) (x y z : Option A)
    → (if b then x else y) ≡ z
    → ((b ≡ true) → x ≡ z) × ((b ≡ false) → y ≡ z)
branch true x y z e = ((λ _. e), λ f. ground arith)
branch false x y z e = ((λ t. ground arith), λ _. e)

named_option : Option AtrInfo → Option Named
named_option none = none
named_option (some info) = some (named_of info)

-- The walk of protocol.c from where a round of atr.c starts.
walk-atr_rounds :
    (left fuel m : ℕ) (atr : List ℕ) (s : Scan) (info : AtrInfo)
    → AreBytes atr
    → s.n < s.len
    → s.len ≤ s.n + fuel
    → atr_rounds left m atr s ≡ some info
    → walk (suc fuel) atr s.len s.n (named_of s.info) ≡ some (named_of info)
unfolding named_option
walk-atr_rounds left zero m atr s info bs more enough e = absurd (omega arith)
walk-atr_rounds zero (suc fuel) m atr s info bs more enough e =
    absurd (no_rounds m atr s info more e)
walk-atr_rounds (suc left) (suc fuel) m atr s info bs more enough e =
    let td = td_of atr s in
    let n' = s.n + count_bits (bit_and td 0xF0) in
    let s' = next atr m s in
    let (kept, len', index, onward) =
      take_interface_lem atr m td (noted atr s) (get_or-lt atr (s.n - 1) bs) in
    let on = atr_rounds-suc left m atr s info more e in
    let (on_goes, on_stops) =
      branch (has_bit td 0x80) (atr_rounds left (suc m) atr s') (end_scan (taken atr m s))
        (some info) on in
    let step : Named → Option Named = λ named'.
      if ltb n' s.len && has_bit td 0x80
      then walk (suc fuel) atr s.len n' named'
      else some named' in
    let (same_len, same_n) = noted-len atr s in
    walk-suc (suc fuel) atr s.len s.n (named_of s.info)
    ∙ ap step (noted-named atr s ∙ sym kept)
    ∙ elim (Bool-cases (has_bit td 0x80)) [
      | inl goes_on ↦
          let one : one_if (has_bit td 0x80) ≡ 1 = ap one_if goes_on in
          let at_n' : s'.n ≡ n' = omega arith in
          let at_len : s'.len ≡ s.len = omega arith in
          rw goes_on (elim (Bool-cases (ltb n' s.len)) [
            | inl inside ↦ rw inside (
                sym (ap₂ (λ (l n : ℕ). walk (suc fuel) atr l n (named_of s'.info)) at_len at_n')
                ∙ walk-atr_rounds left fuel (suc m) atr s' info bs (ground arith) (omega arith)
                    (on_goes goes_on))
            | inr over ↦ rw over (
                ap named_option
                  (sym (atr_rounds_at_end left (suc m) atr s' (ground arith)) ∙ on_goes goes_on))
          ])
      | inr stops ↦
          let over : (ltb n' s.len && false) ≡ false = ground arith in
          rw (stops, over)
            (ap (λ i. some (named_of i)) (end_scan_lem (taken atr m s) info (on_stops stops)))
    ]

-- No protocol is named where the default is none.
abbrev pub IsPlain : Named → Type 0
IsPlain named = is_neg named.def_proto ≡ (named.supported == 0)

name_protocol-IsPlain : (td : ℕ) (named : Named) → IsPlain (name_protocol td named)
unfolding name_protocol
name_protocol-IsPlain td named =
    let prot = bit_and td 0x0F in
    let some_bit : (bit_or named.supported (2 ^ prot) == 0) ≡ false =
      ground (arith, one-le-pow prot 2 (omega arith), le-bit_or named.supported (2 ^ prot)) in
    rw some_bit (go named.def_proto)
  where
    go : (z : ℤ) → is_neg (if is_neg z then pos (bit_and td 0x0F) else z) ≡ false
    go (pos p) = refl
    go (negsuc n) = refl

if-IsPlain : (b : Bool) (x y : Named) → IsPlain x → IsPlain y → IsPlain (if b then x else y)
if-IsPlain true x y hx hy = hx
if-IsPlain false x y hx hy = hy

pub walk-IsPlain :
    (fuel : ℕ) (atr : List ℕ) (len n : ℕ) (named result : Named)
    → IsPlain named
    → walk fuel atr len n named ≡ some result
    → IsPlain result
walk-IsPlain zero atr len n named result plain e = absurd (walk-zero atr len n named result e)
walk-IsPlain (suc fuel) atr len n named result plain e =
    let td = get_or atr (n - 1) 0 in
    let named' = if n != 2 then name_protocol td named else named in
    let n' = n + count_bits (bit_and td 0xF0) in
    let plain' =
      if-IsPlain (n != 2) (name_protocol td named) named (name_protocol-IsPlain td named) plain in
    let rest = walk fuel atr len n' named' in
    let (on_goes, on_stops) =
      branch (ltb n' len && has_bit td 0x80) rest (some named') (some result)
        (sym (walk-suc fuel atr len n named) ∙ e) in
    elim (Bool-cases (ltb n' len && has_bit td 0x80)) [
      | inl goes ↦ walk-IsPlain fuel atr len n' named' result plain' (on_goes goes)
      | inr stops ↦
          subst IsPlain
            (ap (λ (o : Option Named). elim o [ none ↦ named' | some r ↦ r ]) (on_stops stops))
            plain'
    ]

-- The walk from the first byte on.
pub walk-start :
    (fuel : ℕ) (atr : List ℕ) (len : ℕ) (i : AtrInfo)
    → AreBytes atr
    → 2 ≤ len
    → len ≤ 2 + fuel
    → atr_rounds 4 0 atr (record { info = blank_info; n = 2; len = len }) ≡ some i
    → walk (suc fuel) atr len 2 (named_of blank_info) ≡ some (named_of i)
unfolding named_option
walk-start fuel atr len i bs room enough e =
    let start : Scan = record { info = blank_info; n = 2; len = len } in
    elim (Bool-cases (ltb 2 len)) [
      | inl more ↦ walk-atr_rounds 4 fuel 0 atr start i bs (ground arith) enough e
      | inr over ↦
          let td = get_or atr 1 0 in
          let stop : (ltb (2 + count_bits (bit_and td 0xF0)) len && has_bit td 0x80) ≡ false =
            ground arith in
          walk-suc fuel atr len 2 (named_of blank_info)
          ∙ rw stop (ap named_option (sym (atr_rounds_at_end 4 0 atr start (ground arith)) ∙ e))
    ]
