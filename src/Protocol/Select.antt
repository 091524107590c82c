-- ===== src/Protocol/Select.antt =====
-- `ifd_protocol_select`: the protocol of a card, from its answer to reset.
use open_pgpcard_emu.Base.{
  ℕ, zero, suc, ◌+◌, ◌-◌, ◌^◌, bit_and, bit_or, List, ◌&&◌, ◌==◌, ◌!=◌, ltb, if◌then◌else◌, Option,
  none, some, length, get_or, ℤ, pos, negsuc, is_neg,
}
use open_pgpcard_emu.Atr.{count_bits, has_bit}
use open_pgpcard_emu.Protocol.Registry.{Ops, Protocol, new}

-- `supported` and `def_proto`
pub record Named : Type 0 where
  pub supported : ℕ
  pub def_proto : ℤ

-- The protocol that a byte TD names.
unfoldable pub name_protocol : ℕ → Named → Named
name_protocol td named =
    let prot = bit_and td 0x0F in
    record {
      supported = bit_or named.supported (2 ^ prot);
      def_proto = (if is_neg named.def_proto then pos prot else named.def_proto);
    }

-- The rounds of `do ... while` from index `n` on, counted by fuel, `none` if there are more.
unfoldable pub walk : ℕ → List ℕ → ℕ → ℕ → Named → Option Named
unfolding name_protocol count_bits
walk zero atr len n named = none
walk (suc fuel) atr len n named =
    let td = get_or atr (n - 1) 0 in
    let named' = if n != 2 then name_protocol td named else named in
    let n' = n + count_bits (bit_and td 0xF0) in
    let rest = walk fuel atr len n' named' in
    if ltb n' len && has_bit td 0x80 then rest else some named'

-- What holds where the answer to reset names none.
unfoldable pub default_t0 : Named → Named
default_t0 named = record {
  supported = (if named.supported == 0 then 1 else named.supported);
  def_proto = (if is_neg named.def_proto then pos 0 else named.def_proto);
}

-- The protocols of an answer to reset, without its historical bytes.
unfoldable pub announced : List ℕ → Option Named
unfolding walk default_t0
announced atr =
    let len = length atr - bit_and (get_or atr 1 0) 0x0F in
    elim (walk (length atr) atr len 2 (record { supported = 0; def_proto = negsuc 0 })) [
      | none ↦ none
      | some named ↦ some (default_t0 named)
    ]

-- What `ifd_protocol_select` reads and writes of a slot.
pub record Slot (R P S : Type 0) : Type 0 where
  pub dad : ℕ
  pub atr : List ℕ
  pub proto : Option (Protocol R P S)

-- `set_protocol` of the reader's driver, null if the driver or its table is missing too.
abbrev pub SetProtocol : Type 0 → Type 0 → Type 0 → Type 0
SetProtocol R P S = Option (Slot R P S → ℤ → ℤ × Slot R P S)

module _ {R P S : Type 0} where
  -- The protocol is set by the driver, or made here.
  unfoldable pub set_up :
      (Ops R P S → Option P)
      → List (Ops R P S)
      → R
      → SetProtocol R P S
      → ℤ
      → Slot R P S
      → Option (Protocol R P S) × Slot R P S
  unfolding new
  set_up calloc list reader (some set_protocol) id slot =
      let (r, slot') = set_protocol slot id in
      if is_neg r then (none, slot') else (slot'.proto, slot')
  set_up calloc list reader none id slot =
      let p = new calloc list id (some reader) slot.dad in (p, record slot { proto = p })

  -- The outer `none` is for a walk with more rounds than its fuel. The preferred protocol has no effect
  -- but a line of debug output.
  unfoldable pub select :
      (Ops R P S → Option P)
      → List (Ops R P S)
      → R
      → SetProtocol R P S
      → Slot R P S
      → Option (Option (Protocol R P S) × Slot R P S)
  unfolding announced set_up
  select calloc list reader set_protocol slot =
      if ltb (length slot.atr) 2 then some (none, slot) else elim (announced slot.atr) [
        | none ↦ none
        | some named ↦ some (set_up calloc list reader set_protocol named.def_proto slot)
      ]
