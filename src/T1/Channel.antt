-- ===== src/T1/Channel.antt =====
-- `t1_xcv`: a block to the card and its answer, over the reader driver's `send` and `recv`.
use open_pgpcard_emu.Base.{
  ℕ, ◌+◌, ◌*◌, ◌%◌, ◌^◌, List, [], ◌||◌, ltb, leb, if◌then◌else◌, Option, none, some, get_or, take,
  ℤ, pos, negsuc, write_at, is_neg,
}
use open_pgpcard_emu.T1.Block.{T1, rc_bytes}

-- `drv->ops->send` and `drv->ops->recv`, with `prot->dad` inside: `recv` gets the length and the
-- timeout, and gives its result and the bytes that it stored.
pub record Driver (S : Type 0) : Type 0 where
  pub send : Option (S → List ℕ → ℤ × S)
  pub recv : Option (S → ℕ → ℕ → ℤ × List ℕ × S)

module _ {S : Type 0} (drv : Driver S) where
  -- `ifd_send_command` and `ifd_recv_response` of reader.c
  unfoldable pub send_command : S → List ℕ → ℤ × S
  send_command s bytes = elim drv.send [ none ↦ (negsuc 0, s) | some f ↦ f s bytes ]

  unfoldable pub recv_response : S → ℕ → ℕ → ℤ × List ℕ × S
  recv_response s len timeout = elim drv.recv [
    | none ↦ (negsuc 0, [], s)
    | some f ↦ f s len timeout
  ]

  -- A device that frames blocks itself: the answer in one piece.
  unfoldable pub xcv_block : T1 → ℕ → ℕ → List ℕ → S → ℤ × List ℕ × S
  xcv_block t rmax timeout block port =
      let rlen = (3 + t.ifsd + rc_bytes t.csum + 1) % 2 ^ 32 in
      let (r, bytes, port') = recv_response port (if ltb rlen rmax then rlen else rmax) timeout in
      let block' = write_at block 0 bytes in
      elim r [
        | negsuc e ↦ (negsuc e, block', port')
        | pos n ↦
            let m = get_or block' 2 0 + 3 + rc_bytes t.csum in
            (pos (if ltb m n then m else n), block', port')
      ]

  -- A serial line: the header first, then the rest.
  unfoldable pub xcv_serial : T1 → ℕ → ℕ → List ℕ → S → ℤ × List ℕ × S
  xcv_serial t rmax timeout block port =
      let (r, bytes, port₁) = recv_response port 3 timeout in
      let block₁ = write_at block 0 bytes in
      if is_neg r
      then (negsuc 0, block₁, port₁)
      else let n = get_or block₁ 2 0 + rc_bytes t.csum in
        if ltb rmax (n + 3) || leb 254 (get_or block₁ 2 0)
        then (negsuc 0, block₁, port₁)
        else let (r', bytes', port₂) = recv_response port₁ n t.timeout in
          let block₂ = write_at block₁ 3 bytes' in
          if is_neg r' then (negsuc 0, block₂, port₂) else (pos (n + 3), block₂, port₂)

  -- The length of the answer or an error, the block buffer, and the protocol's state.
  unfoldable pub xcv : T1 → List ℕ → ℕ → ℕ → S → (ℤ × List ℕ × S) × T1
  unfolding xcv_block xcv_serial
  xcv t block slen rmax port =
      let (r, port') = send_command port (take slen block) in
      elim r [
        | negsuc e ↦ ((negsuc e, block, port'), t)
        | pos _ ↦
            let timeout = (t.timeout + 1000 * t.wtx) % 2 ^ 32 in
            let t' = record t { wtx = 0 } in
            (
              (if t.block_oriented
                  then xcv_block t' rmax timeout block port'
                  else xcv_serial t' rmax timeout block port'),
              t',
            )
      ]
