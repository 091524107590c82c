-- ===== src/Protocol/Agrees.antt =====
-- The two analyses of the answer to reset, that of protocol.c and that of atr.c.
use open_pgpcard_emu.Base.{
  ℕ, suc, ◌+◌, ◌-◌, ◌≤◌, ◌≡◌, refl, ap, ◌∙◌, sym, bit_and, Bool, true, false, List, arith, ltb,
  ◌==◌, if◌then◌else◌, length, get_or, Option, none, some, Bool-cases, inl, inr, AreBytes,
}
use open_pgpcard_emu.Atr
use open_pgpcard_emu.Atr.{
  AtrInfo, Scan, blank_info, note_protocol, take_ta, take_tb, take_tc, take_interface, end_scan,
  atr_rounds, atr_parse, count_bits, has_bit,
}
use open_pgpcard_emu.Protocol.Registry.{Ops}
use open_pgpcard_emu.Protocol.Select.{
  Named, walk, default_t0, announced, Slot, SetProtocol, set_up, select,
}
use open_pgpcard_emu.Protocol.Rounds.{named_of}
use open_pgpcard_emu.Protocol.Walk.{walk-IsPlain, IsPlain, walk-start}

default_t0-named_of :
    (info : AtrInfo)
    → IsPlain (named_of info)
    → named_of (Atr.default_t0 info) ≡ default_t0 (named_of info)
unfolding default_t0 Atr.default_t0
default_t0-named_of info plain = elim (Bool-cases (info.supported == 0)) [
  | inl unnamed ↦ rw (plain, unnamed) refl
  | inr named ↦ rw (plain, named) refl
]

le_of_not_ltb : (a b : ℕ) → ltb a b ≡ false → b ≤ a
le_of_not_ltb a b e = ground arith

not_ltb_of_le : (a b : ℕ) → b ≤ a → ltb a b ≡ false
not_ltb_of_le a b h = ground arith

parsed :
    (short : Bool) (r : Option AtrInfo) (info : AtrInfo)
    → (if short
        then none
        else elim r as (λ _. Option AtrInfo) [ none ↦ none | some i ↦ some (Atr.default_t0 i) ])
      ≡ some info
    → (short ≡ false) × ((i : AtrInfo) × (r ≡ some i) × (Atr.default_t0 i ≡ info))
parsed true r info e = absurd (ground arith)
parsed false none info e = absurd (ground arith)
parsed false (some i) info e =
    (refl, (i, refl, ap (λ (o : Option AtrInfo). elim o [ none ↦ info | some j ↦ j ]) e))

blank_info-IsPlain : IsPlain (named_of blank_info)
unfolding blank_info
blank_info-IsPlain = refl

-- `announced` of an answer to reset that `ifd_atr_parse` accepts.
announced-atr_parse :
    (atr : List ℕ) (info : AtrInfo)
    → AreBytes atr
    → atr_parse atr ≡ some info
    → (ltb (length atr) 2 ≡ false) × (announced atr ≡ some (named_of info))
unfolding atr_parse announced blank_info
announced-atr_parse atr info bs e =
    let historical = bit_and (get_or atr 1 0) 0x0F in
    let len = length atr - historical in
    let start : Scan = record { info = blank_info; n = 2; len = len } in
    let (long, (i, scanned, defaulted)) =
      parsed (ltb (length atr) (2 + historical)) (atr_rounds 4 0 atr start) info e in
    let room : 2 + historical ≤ length atr = le_of_not_ltb (length atr) (2 + historical) long in
    let all : suc (length atr - 1) ≡ length atr = omega arith in
    let walked = walk-start (length atr - 1) atr len i bs (omega arith) (omega arith) scanned in
    let plain =
      walk-IsPlain (suc (length atr - 1)) atr len 2 (named_of blank_info) (named_of i)
        blank_info-IsPlain walked in
    let wrap : Option Named → Option Named =
      λ o. elim o [ none ↦ none | some named ↦ some (default_t0 named) ] in
    (
      not_ltb_of_le (length atr) 2 (omega arith),
      ap wrap (ap (λ (n : ℕ). walk n atr len 2 (named_of blank_info)) (sym all) ∙ walked)
          ∙ ap some (sym (default_t0-named_of i plain))
          ∙ ap (λ (j : AtrInfo). some (named_of j)) defaulted,
    )

-- For an answer to reset of bytes that `ifd_atr_parse` accepts, `ifd_protocol_select`, which has an
-- analysis of its own, finds the same supported protocols and the same default, and sets up the
-- default protocol, whatever the driver and the registered protocols are.
pub select-atr_parse :
    {R P S : Type 0} (calloc : Ops R P S → Option P) (list : List (Ops R P S)) (reader : R)
    (set_protocol : SetProtocol R P S) (slot : Slot R P S) (info : AtrInfo)
    → AreBytes slot.atr
    → atr_parse slot.atr ≡ some info
    → (announced slot.atr
        ≡ some (record { supported = info.supported; def_proto = info.default_protocol }))
      × (select calloc list reader set_protocol slot
          ≡ some (set_up calloc list reader set_protocol info.default_protocol slot))
unfolding select
select-atr_parse calloc list reader set_protocol slot info bs e =
    let (long, found) = announced-atr_parse slot.atr info bs e in (found, rw (long, found) refl)
