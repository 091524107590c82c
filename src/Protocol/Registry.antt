-- ===== src/Protocol/Registry.antt =====
-- The list of protocols, and what the rest of the driver calls of the one in use.
use open_pgpcard_emu.Base.{
  ℕ, zero, suc, Bool, true, false, List, [], ◌∷◌, ◌++◌, if◌then◌else◌, Option, none, some, ℤ, pos,
  negsuc, is_neg,
}
use open_pgpcard_emu.Atr.{same_value, error_not_supported}
use open_pgpcard_emu.Locks.{error_no_memory}

-- `struct ifd_protocol_ops`. R is the reader, P what a protocol keeps behind `ifd_protocol_t`, S the
-- outside. A pointer that may be null is an Option.
pub record Ops (R P S : Type 0) : Type 0 where
  pub id : ℤ
  pub name : List ℕ
  pub init : Option (R → ℕ → P → ℤ × P)
  pub set_param : Option (ℕ → ℤ → P → ℤ × P)
  pub get_param : Option (ℕ → P → ℤ × Option ℤ)
  pub resynchronize : Option (R → ℕ → P → S → ℤ × P × S)
  pub transceive : Option (R → ℕ → List ℕ → List ℕ → P → S → ℤ × List ℕ × P × S)

-- `struct ifd_protocol` with what the protocol keeps behind it.
pub record Protocol (R P S : Type 0) : Type 0 where
  pub reader : R
  pub dad : ℕ
  pub ops : Ops R P S
  pub own : P

module _ {R P S : Type 0} where
  -- The flag says whether `calloc` finds room. A new protocol goes to the end of the list.
  unfoldable pub register : Bool → Ops R P S → List (Ops R P S) → ℤ × List (Ops R P S)
  register false ops list = (error_no_memory, list)
  register true ops list = (pos 0, list ++ (ops ∷ []))

  unfoldable pub by_id : ℤ → List (Ops R P S) → Option (Ops R P S)
  by_id id [] = none
  by_id id (ops ∷ list) = if same_value ops.id id then some ops else by_id id list

  -- `init`, if there is one, of a protocol whose other fields are set.
  unfoldable pub initialised : Protocol R P S → Option (Protocol R P S)
  initialised p = elim p.ops.init [
    | none ↦ some p
    | some init ↦
        let (r, own) = init p.reader p.dad p.own in
        if is_neg r then none else some (record p { own = own })
  ]

  -- `ifd_protocol_new`. `calloc` gives the zeroed memory for a protocol, or `none`.
  unfoldable pub new :
      (Ops R P S → Option P) → List (Ops R P S) → ℤ → Option R → ℕ → Option (Protocol R P S)
  unfolding by_id initialised
  new calloc list id none dad = none
  new calloc list id (some reader) dad = elim (by_id id list) [
    | none ↦ none
    | some ops ↦ elim (calloc ops) [
      | none ↦ none
      | some own ↦ initialised (record { reader = reader; dad = dad; ops = ops; own = own })
    ]
  ]

  -- The names of the first `max` protocols.
  unfoldable pub protocols_list : ℕ → List (Ops R P S) → List (List ℕ)
  protocols_list zero list = []
  protocols_list (suc max) [] = []
  protocols_list (suc max) (ops ∷ list) = ops.name ∷ protocols_list max list

  unfoldable pub set_parameter : ℕ → ℤ → Option (Protocol R P S) → ℤ × Option (Protocol R P S)
  set_parameter type v none = (negsuc 0, none)
  set_parameter type v (some p) = elim p.ops.set_param [
    | none ↦ (negsuc 0, some p)
    | some call ↦ let (r, own) = call type v p.own in (r, some (record p { own = own }))
  ]

  -- The value is that which is stored, if one is.
  unfoldable pub get_parameter : ℕ → Option (Protocol R P S) → ℤ × Option ℤ
  get_parameter type none = (negsuc 0, none)
  get_parameter type (some p) = elim p.ops.get_param [
    | none ↦ (negsuc 0, none)
    | some call ↦ call type p.own
  ]

  unfoldable pub resynchronize : ℕ → Option (Protocol R P S) → S → ℤ × Option (Protocol R P S) × S
  resynchronize nad none s = (error_not_supported, none, s)
  resynchronize nad (some p) s = elim p.ops.resynchronize [
    | none ↦ (error_not_supported, some p, s)
    | some call ↦
        let (r, own, s') = call p.reader nad p.own s in (r, some (record p { own = own }), s')
  ]

  -- `sbuf` and `rbuf` are the buffers with their lengths.
  unfoldable pub transceive :
      ℕ → List ℕ → List ℕ → Option (Protocol R P S) → S → ℤ × List ℕ × Option (Protocol R P S) × S
  transceive dad sbuf rbuf none s = (error_not_supported, rbuf, none, s)
  transceive dad sbuf rbuf (some p) s = elim p.ops.transceive [
    | none ↦ (error_not_supported, rbuf, some p, s)
    | some call ↦
        let (r, rbuf', own, s') = call p.reader dad sbuf rbuf p.own s in
        (r, rbuf', some (record p { own = own }), s')
  ]
