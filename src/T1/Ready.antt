-- ===== src/T1/Ready.antt =====
-- The host's next block in `t1_transceive` of proto-t1.c, and the block of the card that answers it.
use open_pgpcard_emu.Base.{
  ℕ, zero, suc, ◌*◌, ◌%◌, ◌<◌, ◌≤◌, ◌≡◌, refl, ap, ◌∙◌, sym, subst, Bool, true, false, List, [],
  ◌∷◌, ◌++◌, arith, ltb, if◌then◌else◌, length, take, take_all, Option, none, some, bit_or,
}
use open_pgpcard_emu.Base.Slice.{slice}
use open_pgpcard_emu.Buffer
use open_pgpcard_emu.Buffer.{Buf}
use open_pgpcard_emu.Buffer.Queue.{IsBuf, content, put-grows}
use open_pgpcard_emu.T1.Block.{
  T1, Phase, block_type, with_seq, built, i_block, r_block, more_blocks, t1_buffer_size,
}
use open_pgpcard_emu.T1.Talk.{IsFit, sent_i, sent_r, sent_wtx}
use open_pgpcard_emu.T1.Frames.{frame, built-frame, built-frame_empty}
use open_pgpcard_emu.T1.Bounds.{build-built, built-fits}
use open_pgpcard_emu.T1.Sent.{length-built}
use open_pgpcard_emu.T1.Handled.{IsLoaded, live}
use open_pgpcard_emu.T1.Transceive.{Xfer, reply, send_next}

-- The protocol bytes that `t1_build` makes.
i_byte :
    (n : ℕ) (more : Bool)
    → n < 2
    → bit_or (if more then bit_or i_block more_blocks else i_block) (n * 64 % 256) ≡ sent_i n more
i_byte zero false small = refl
i_byte zero true small = refl
i_byte (suc zero) false small = refl
i_byte (suc zero) true small = refl
i_byte (suc (suc n)) more small = absurd (omega arith)

r_byte : (n : ℕ) → n < 2 → bit_or r_block (n * 16 % 256) ≡ sent_r n
r_byte zero small = refl
r_byte (suc zero) small = refl
r_byte (suc (suc n)) small = absurd (omega arith)

sent_i_lem :
    (t : T1) (more : Bool)
    → t.ns < 2
    → let pcb = if more then bit_or i_block more_blocks else i_block in
      with_seq (block_type pcb) t pcb ≡ sent_i t.ns more
unfolding with_seq block_type
sent_i_lem t true small = i_byte t.ns true small
sent_i_lem t false small = i_byte t.ns false small

sent_r_lem : (t : T1) → t.nr < 2 → with_seq (block_type r_block) t r_block ≡ sent_r t.nr
unfolding with_seq block_type
sent_r_lem t small = r_byte t.nr small

abbrev empty : Buf
empty = Buffer.init (0 ∷ 0 ∷ 0 ∷ 0 ∷ 0 ∷ []) 5

empty-IsBuf : IsBuf empty
unfolding Buffer.init
empty-IsBuf = (omega arith, omega arith, refl, omega arith)

empty-content : content empty ≡ []
unfolding Buffer.init slice
empty-content = refl

-- A new block in the buffer leaves the rest.
pub reblock :
    {S : Type 0} (room : ℕ) (rest got : List ℕ) (x y : Xfer S)
    → y.sbuf ≡ x.sbuf
    → y.rbuf ≡ x.rbuf
    → length y.sdata ≡ length x.sdata
    → y.overran ≡ false
    → IsLoaded S room rest got x
    → IsLoaded S room rest got y
reblock room rest got x y same_sbuf same_rbuf same within loaded = record {
  within = within;
  block = same ∙ loaded.block;
  sbuf = subst IsBuf (sym same_sbuf) loaded.sbuf;
  left = ap content same_sbuf ∙ loaded.left;
  rbuf = subst IsBuf (sym same_rbuf) loaded.rbuf;
  size = ap (λ (b : Buf). b.size) same_rbuf ∙ loaded.size;
  held = ap content same_rbuf ∙ loaded.held;
  front = ap (λ (b : Buf). b.head) same_rbuf ∙ loaded.front;
}

-- A block with room for it is made as `built` says.
reply-built :
    {S : Type 0} (dad pcb : ℕ) (bp : Option Buf) (x : Xfer S)
    → x.t1.ifsc ≤ 254
    → length x.sdata ≡ t1_buffer_size
    → let out = built x.t1 dad pcb bp x.sdata in
      reply dad pcb bp x ≡ record x { slen = out.0; sdata = out.2; overran = false }
unfolding reply
reply-built dad pcb bp x small size =
    rw
      (build-built x.t1 dad pcb bp x.sdata
        (omega (arith, built-fits x.t1 dad pcb bp x.sdata small)))
      refl

send_next-built :
    {S : Type 0} (dad : ℕ) (x : Xfer S)
    → x.t1.ifsc ≤ 254
    → length x.sdata ≡ t1_buffer_size
    → let out = built x.t1 dad i_block (some x.sbuf) x.sdata in
      send_next dad x ≡ record x { slen = out.0; sdata = out.2; last_send = out.1; overran = false }
unfolding send_next
send_next-built dad x small size =
    rw
      (build-built x.t1 dad i_block (some x.sbuf) x.sdata
        (omega (arith, built-fits x.t1 dad i_block (some x.sbuf) x.sdata small)))
      refl

module _ {S : Type 0} (t : T1) (dad room : ℕ) (fit : IsFit t) where
  -- `slen` bytes of the block buffer are what goes out next.
  abbrev pub IsReady : List ℕ → List ℕ → List ℕ → Xfer S → Type 0
  IsReady request rest got x = IsLoaded S room rest got x × (take x.slen x.sdata ≡ request)

  -- An R-block is ready.
  pub reply_r-IsReady :
      (ph : Phase) (ns nr wtx : ℕ) (rest got : List ℕ) (x : Xfer S)
      → nr < 2
      → IsLoaded S room rest got x
      → IsReady
          (frame t.csum (dad % 256) (sent_r nr) [])
          rest
          got
          (reply dad r_block none (record x { t1 = live t ph ns nr wtx }))
  reply_r-IsReady ph ns nr wtx rest got x small loaded =
      let t' = live t ph ns nr wtx in
      let same = length-built t' dad r_block none x.sdata in
      let out = built t' dad r_block none x.sdata in
      let y = record x { t1 = t'; slen = out.0; sdata = out.2; overran = false } in
      subst (IsReady (frame t.csum (dad % 256) (sent_r nr) []) rest got)
        (sym (reply-built dad r_block none (record x { t1 = t' }) fit.ifsc loaded.block))
        (
          reblock room rest got x y refl refl same refl loaded,
          built-frame_empty t' dad r_block x.sdata (omega (arith, loaded.block))
              ∙ ap (λ (p : ℕ). frame t.csum (dad % 256) p []) (sent_r_lem t' small),
        )

  -- The response to a request for more time is ready.
  pub reply_wtx-IsReady :
      (ph : Phase) (ns nr wtx info : ℕ) (rest got : List ℕ) (x : Xfer S)
      → IsLoaded S room rest got x
      → IsReady (frame t.csum (dad % 256) sent_wtx (info ∷ [])) rest got (
          reply dad sent_wtx
            (some (Buffer.put (info ∷ []) (Buffer.init (0 ∷ 0 ∷ 0 ∷ 0 ∷ 0 ∷ []) 5)).1)
            (record x { t1 = live t ph ns nr wtx }))
  unfolding with_seq block_type slice Buffer.init
  reply_wtx-IsReady ph ns nr wtx info rest got x loaded =
      let t' = live t ph ns nr wtx in
      let b = (Buffer.put (info ∷ []) (Buffer.init (0 ∷ 0 ∷ 0 ∷ 0 ∷ 0 ∷ []) 5)).1 in
      let same = length-built t' dad sent_wtx (some b) x.sdata in
      let (_, wf, _, one) = put-grows (info ∷ []) empty empty-IsBuf (omega arith) in
      let (made, _) =
        built-frame t' dad sent_wtx b x.sdata wf fit.ifsc (omega (arith, loaded.block)) in
      let all : take t.ifsc (info ∷ []) ≡ info ∷ [] = take_all t.ifsc (info ∷ []) (omega arith) in
      let whole : ltb t.ifsc 1 ≡ false = ground arith in
      let out = built t' dad sent_wtx (some b) x.sdata in
      let y = record x { t1 = t'; slen = out.0; sdata = out.2; overran = false } in
      subst (IsReady (frame t.csum (dad % 256) sent_wtx (info ∷ [])) rest got)
        (sym (reply-built dad sent_wtx (some b) (record x { t1 = t' }) fit.ifsc loaded.block))
        (
          reblock room rest got x y refl refl same refl loaded,
          made
              ∙ ap
                  (λ (l : List ℕ).
                    let pcb' =
                      if ltb t.ifsc (length l) then bit_or sent_wtx more_blocks else sent_wtx in
                    frame t.csum (dad % 256) (with_seq (block_type pcb') t' pcb') (take t.ifsc l))
                  (one ∙ ap (λ (l : List ℕ). l ++ info ∷ []) empty-content)
              ∙ rw (whole, all) refl,
        )

  -- An I-block with what fits of the command is ready.
  pub send_next-IsReady :
      (ph : Phase) (ns nr wtx : ℕ) (rest got : List ℕ) (x : Xfer S)
      → ns < 2
      → IsLoaded S room rest got x
      → let y = send_next dad (record x { t1 = live t ph ns nr wtx }) in
        IsReady
          (frame t.csum (dad % 256) (sent_i ns (ltb t.ifsc (length rest))) (take t.ifsc rest))
          rest
          got
          y
        × (y.last_send ≡ length (take t.ifsc rest))
  send_next-IsReady ph ns nr wtx rest got x small loaded =
      let t' = live t ph ns nr wtx in
      let same = length-built t' dad i_block (some x.sbuf) x.sdata in
      let (made, count) =
        built-frame t' dad i_block x.sbuf x.sdata loaded.sbuf fit.ifsc
          (omega (arith, loaded.block)) in
      let out = built t' dad i_block (some x.sbuf) x.sdata in
      let y = record x {
        t1 = t';
        slen = out.0;
        sdata = out.2;
        last_send = out.1;
        overran = false;
      } in
      let goal : Xfer S → Type 0 = λ z.
        IsReady (frame t.csum (dad % 256) (sent_i ns (ltb t.ifsc (length rest))) (take t.ifsc rest))
          rest got z
        × (z.last_send ≡ length (take t.ifsc rest)) in
      subst goal (sym (send_next-built dad (record x { t1 = t' }) fit.ifsc loaded.block)) (
        (
          reblock room rest got x y refl refl same refl loaded,
          made
              ∙ ap (λ (p : ℕ). frame t.csum (dad % 256) p (take t.ifsc (content x.sbuf)))
                  (sent_i_lem t' (ltb t.ifsc (length (content x.sbuf))) small)
              ∙ ap
                  (λ (l : List ℕ).
                    frame t.csum (dad % 256) (sent_i ns (ltb t.ifsc (length l))) (take t.ifsc l))
                  loaded.left,
        ),
        count ∙ ap (λ (l : List ℕ). length (take t.ifsc l)) loaded.left,
      )
