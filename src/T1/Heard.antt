-- ===== src/T1/Heard.antt =====
-- `t1_xcv` of proto-t1.c leaves the block buffer its size.
use open_pgpcard_emu.Base.{
  ℕ, ◌+◌, ◌*◌, ◌%◌, ◌^◌, ◌≡◌, refl, ◌∙◌, List, ◌||◌, length, pos, negsuc, is_neg, ltb, leb, get_or,
  take, if◌then◌else◌, write_at, length-write_at, Bool-cases, inl, inr, ℤ,
}
use open_pgpcard_emu.T1.Block.{T1, rc_bytes}
use open_pgpcard_emu.T1.Channel.{Driver, send_command, recv_response, xcv_block, xcv_serial, xcv}

length-xcv_serial :
    {S : Type 0} (drv : Driver S) (t : T1) (rmax timeout : ℕ) (block : List ℕ) (port : S)
    → length (xcv_serial drv t rmax timeout block port).1 ≡ length block
unfolding xcv_serial
length-xcv_serial drv t rmax timeout block port =
    let (r, bytes, port₁) = recv_response drv port 3 timeout in
    let block₁ = write_at block 0 bytes in
    let len₁ = length-write_at block 0 bytes in
    elim (Bool-cases (is_neg r)) [
      | inl lost ↦ rw lost len₁
      | inr came ↦
          let n = get_or block₁ 2 0 + rc_bytes t.csum in
          rw came (elim (Bool-cases (ltb rmax (n + 3) || leb 254 (get_or block₁ 2 0))) [
            | inl long ↦ rw long len₁
            | inr short ↦
                let out = recv_response drv port₁ n t.timeout in
                rw short (elim (Bool-cases (is_neg out.0)) [
                  | inl lost ↦ rw lost (length-write_at block₁ 3 out.1 ∙ len₁)
                  | inr came' ↦ rw came' (length-write_at block₁ 3 out.1 ∙ len₁)
                ])
          ])
    ]

length-xcv_block :
    {S : Type 0} (drv : Driver S) (t : T1) (rmax timeout : ℕ) (block : List ℕ) (port : S)
    → length (xcv_block drv t rmax timeout block port).1 ≡ length block
unfolding xcv_block
length-xcv_block {S} drv t rmax timeout block port =
    let rlen = (3 + t.ifsd + rc_bytes t.csum + 1) % 2 ^ 32 in
    let out = recv_response drv port (if ltb rlen rmax then rlen else rmax) timeout in
    judged out.0 (write_at block 0 out.1) out.2 (length-write_at block 0 out.1)
  where
    judged :
        (r : ℤ) (block' : List ℕ) (port' : S)
        → length block' ≡ length block
        → length
            (elim r as (λ _. ℤ × List ℕ × S) [
              | negsuc e ↦ (negsuc e, block', port')
              | pos n ↦
                  let m = get_or block' 2 0 + 3 + rc_bytes t.csum in
                  (pos (if ltb m n then m else n), block', port')
            ]).1
          ≡ length block
    judged (pos n) block' port' same = same
    judged (negsuc e) block' port' same = same

pub length-xcv :
    {S : Type 0} (drv : Driver S) (t : T1) (block : List ℕ) (slen rmax : ℕ) (port : S)
    → length (xcv drv t block slen rmax port).0.1 ≡ length block
unfolding xcv
length-xcv {S} drv t block slen rmax port = judged (send_command drv port (take slen block)).0
  where
    port' : S
    port' = (send_command drv port (take slen block)).1

    timeout : ℕ
    timeout = (t.timeout + 1000 * t.wtx) % 2 ^ 32

    t' : T1
    t' = record t { wtx = 0 }

    judged :
        (r : ℤ)
        → length
            (elim r as (λ _. (ℤ × List ℕ × S) × T1) [
              | negsuc e ↦ ((negsuc e, block, port'), t)
              | pos _ ↦ (
                (if t.block_oriented
                    then xcv_block drv t' rmax timeout block port'
                    else xcv_serial drv t' rmax timeout block port'),
                t',
              )
            ]).0.1
          ≡ length block
    judged (negsuc e) = refl
    judged (pos m) = elim (Bool-cases t.block_oriented) [
      | inl blocks ↦ rw blocks (length-xcv_block drv t' rmax timeout block port')
      | inr bytes ↦ rw bytes (length-xcv_serial drv t' rmax timeout block port')
    ]
