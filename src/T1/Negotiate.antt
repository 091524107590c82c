-- ===== src/T1/Negotiate.antt =====
-- `t1_resynchronize` and `t1_negotiate_ifsd`.
use open_pgpcard_emu.Base.{
  ℕ, zero, suc, ◌+◌, ◌%◌, bit_and, bit_or, Bool, true, false, not, List, [], ◌∷◌, ◌||◌, ◌&&◌, ◌==◌,
  ◌!=◌, if◌then◌else◌, Option, none, some, ltb, length, get_or, write_at, ℤ, pos, negsuc,
}
use open_pgpcard_emu.Buffer
use open_pgpcard_emu.T1.Block.{
  dead, T1, rc_bytes, BlockType, block_type, build, compute_checksum, verify_checksum, s_block,
  s_response, s_resync, s_ifs, t1_buffer_size,
}
use open_pgpcard_emu.T1.Channel.{Driver, xcv}

abbrev pub is_s : BlockType → Bool
is_s BlockType.s = true
is_s _ = false

abbrev pub is_four : ℤ → Bool
is_four (pos n) = n == 4
is_four (negsuc n) = false

module _ {S : Type 0} (drv : Driver S) (flush : S → S) where
  -- `while (retries--)`, with `n` rounds left; the flag is the return code, false for -1, and none is
  -- a write behind `block`, whose four bytes have room for one checksum byte.
  unfoldable pub resync_rounds : ℕ → T1 → ℕ → List ℕ → S → Option Bool × T1 × S
  resync_rounds zero t nad block port = (some false, record t { phase = dead }, port)
  resync_rounds (suc n) t nad block port =
      let t₁ = record t { ns = 0; nr = 0 } in
      let asked =
        compute_checksum t₁.csum 3
          (write_at block 0 (nad % 256 ∷ bit_or s_block s_resync ∷ 0 ∷ [])) in
      let ((r, block', port'), t₂) = xcv drv t₁ asked 4 4 port in
      elim (ltb (length block) (3 + rc_bytes t₁.csum)) [
        | true ↦ (none, t₁, port)
        | false ↦ elim (is_four r) [
          | false ↦ (some false, record t₂ { phase = dead }, port')
          | true ↦
              elim (verify_checksum t₂.csum 4 block'
                && get_or block' 1 0 == bit_or (bit_or s_block s_response) s_resync) [
                  | true ↦ (some true, t₂, port')
                  | false ↦ resync_rounds n t₂ nad block' port'
                ]
        ]
      ]

  unfoldable pub resynchronize : T1 → ℕ → List ℕ → S → Option Bool × T1 × S
  unfolding resync_rounds
  resynchronize t nad junk port = resync_rounds 3 t nad junk (flush port)

  -- How a round of `t1_negotiate_ifsd` ends.
  pub data Verdict : Type 0 where
    agreed refused again : Verdict

  -- What is made of an answer of `n` bytes in `sdata`. `retries` is never counted down.
  unfoldable pub judge : T1 → ℕ → ℕ → List ℕ → Verdict
  judge t ifsd n sdata =
      if not (verify_checksum t.csum n sdata)
      then (if t.retries == 0 then refused else again)
      else let pcb = get_or sdata 1 0 in
        if is_s (block_type pcb) && (bit_and pcb 0x0F == s_ifs && bit_and pcb s_response != 0)
        then (if get_or sdata 2 0 != 1 || get_or sdata 3 0 != ifsd then refused else agreed)
        else if t.retries == 0
        then refused
        else again

  -- How the call ends: the length of the answer, -1, a write behind a block buffer, or more rounds
  -- than the fuel.
  pub data Negotiated : Type 0 where
    agreed_on : ℕ → Negotiated
    not_agreed : Negotiated
    overflow : Negotiated
    out_of_fuel : Negotiated

  -- The label `error`: the result of the resynchronisation is dropped, but for a write behind its
  -- block.
  unfoldable pub not_agreed_after : Option Bool × T1 × S → Negotiated × T1 × S
  not_agreed_after (none, t, port) = (overflow, t, port)
  not_agreed_after (some _, t, port) = (not_agreed, t, port)

  unfoldable pub negotiate_rounds : ℕ → T1 → ℕ → ℕ → List ℕ → List ℕ → S → Negotiated × T1 × S
  unfolding judge not_agreed_after
  negotiate_rounds zero t dad ifsd sdata junk port = (out_of_fuel, t, port)
  negotiate_rounds (suc fuel) t dad ifsd sdata junk port =
      let sbuf = Buffer.set_full (ifsd % 256 ∷ []) 1 in
      elim (build t dad (bit_or s_block s_ifs) (some sbuf) sdata) [
        | none ↦ (overflow, t, port)
        | some (slen, _, asked) ↦
            let ((r, sdata', port'), t') = xcv drv t asked slen t1_buffer_size port in
            elim r [
              | negsuc _ ↦
                  not_agreed_after (resynchronize (record t' { phase = dead }) dad junk port')
              | pos n ↦ elim (judge t' ifsd n sdata') [
                | agreed ↦ (agreed_on n, t', port')
                | refused ↦ not_agreed_after (resynchronize t' dad junk port')
                | again ↦ negotiate_rounds fuel t' dad ifsd sdata' junk port'
              ]
            ]
      ]

  unfoldable pub negotiate_ifsd : ℕ → T1 → ℕ → ℕ → List ℕ → List ℕ → S → Negotiated × T1 × S
  unfolding negotiate_rounds
  negotiate_ifsd fuel t dad ifsd sdata junk port = negotiate_rounds fuel t dad ifsd sdata junk port
