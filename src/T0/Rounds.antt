-- ===== src/T0/Rounds.antt =====
-- Single rounds of the loop of `t0_xcv` in proto-t0.c, and the null bytes of a busy card.
use open_pgpcard_emu.Base.{
  ℕ, suc, ◌+◌, ◌-◌, ◌%◌, ◌^◌, ◌≤◌, ◌<◌, ◌≡◌, refl, ap, ◌∙◌, true, false, List, [], ◌∷◌, ◌==◌, arith,
  ltb, if◌then◌else◌, get_or, ℤ, pos, negsuc, is_neg,
}
use open_pgpcard_emu.Buffer
use open_pgpcard_emu.T1.Channel.{Driver, recv_response}
use open_pgpcard_emu.T0.State.{T0, confused}
use open_pgpcard_emu.T0.Transceive.{
  Outcome, returned, overflow, Xcv, Round, again, finished, failed, returned_early, overflowed,
  on_byte, round, rounds,
}

module _ {S : Type 0} (drv : Driver S) (timeout : ℕ) where
  -- The card sends null bytes while it is busy.
  pub data Waits : S → ℕ → S → Type 0 where
    ready : {s : S} → Waits s 0 s
    busy :
        {s : S} (s₁ : S) {n : ℕ} {s' : S}
        → recv_response drv s 1 timeout ≡ (pos 1, 0x60 ∷ [], s₁)
        → Waits s₁ n s'
        → Waits s (suc n) s'

module _ {S : Type 0} (drv : Driver S) (t : T0) where
  -- A round at a byte that has come.
  pub round-on_byte :
      (ins junk byte : ℕ) (x : Xcv S) (s' : S)
      → byte < 256
      → recv_response drv x.port 1 t.timeout ≡ (pos 1, byte ∷ [], s')
      → round drv t ins junk x ≡ on_byte drv t ins byte (record x { port = s' })
  unfolding round
  round-on_byte ins junk byte x s' small comes =
      let same : byte % 256 ≡ byte = omega arith in
      let finish : ℤ × List ℕ × S → Round S = λ o.
        if is_neg o.0
        then failed (record x { port = o.2 })
        else on_byte drv t ins (get_or o.1 0 junk % 256) (record x { port = o.2 }) in
      ap finish comes ∙ ap (λ (b : ℕ). on_byte drv t ins b (record x { port = s' })) same

  null-again :
      (ins : ℕ) (x : Xcv S)
      → (x.null_count + 1) % 2 ^ 32 ≡ x.null_count + 1
      → ltb t.max_nulls (x.null_count + 1) ≡ false
      → on_byte drv t ins 0x60 x ≡ again (record x { null_count = x.null_count + 1 })
  unfolding on_byte
  null-again ins x count borne = rw (count, borne) refl

  abbrev pub after_round : ℕ → ℕ → ℕ → Round S → Outcome × T0 × S
  after_round k ins junk r = elim r [
    | again y ↦ rounds drv k t ins junk y
    | finished y ↦ (returned (pos (Buffer.avail y.rbuf)) y.rbuf.base, t, y.port)
    | failed y ↦ (returned (negsuc 0) y.rbuf.base, record t { phase = confused }, y.port)
    | returned_early y ↦ (returned (negsuc 0) y.rbuf.base, t, y.port)
    | overflowed s ↦ (overflow, t, s)
  ]

  pub rounds-again :
      (ins junk k : ℕ) (x y : Xcv S)
      → round drv t ins junk x ≡ again y
      → rounds drv (suc k) t ins junk x ≡ rounds drv k t ins junk y
  unfolding rounds
  rounds-again ins junk k x y e = ap (after_round k ins junk) e

  -- The null bytes that the card may send keep the loop waiting.
  pub rounds-Waits :
      (ins junk k n : ℕ) (x : Xcv S) (s' : S)
      → Waits drv t.timeout x.port n s'
      → x.null_count + n ≤ t.max_nulls
      → t.max_nulls < 2 ^ 32 - 1
      → rounds drv (n + k) t ins junk x
        ≡ rounds drv k t ins junk (record x { port = s'; null_count = x.null_count + n })
  rounds-Waits ins junk k n x s' ready few small =
      let same_k : 0 + k ≡ k = omega arith in
      let same_n : x.null_count ≡ x.null_count + 0 = omega arith in
      ap (λ (j : ℕ). rounds drv j t ins junk x) same_k
      ∙ ap (λ (c : ℕ). rounds drv k t ins junk (record x { null_count = c })) same_n
  rounds-Waits ins junk k n x s' (busy s₁ {n = m} comes waits) few small =
      let same_k : suc m + k ≡ suc (m + k) = omega arith in
      let count : (x.null_count + 1) % 2 ^ 32 ≡ x.null_count + 1 = omega arith in
      let same_n : x.null_count + 1 + m ≡ x.null_count + suc m = omega arith in
      let borne : ltb t.max_nulls (x.null_count + 1) ≡ false = ground arith in
      let y = record x { port = s₁; null_count = x.null_count + 1 } in
      let step =
        round-on_byte ins junk 0x60 x s₁ (omega arith) comes
        ∙ null-again ins (record x { port = s₁ }) count borne in
      ap (λ (j : ℕ). rounds drv j t ins junk x) same_k
      ∙ rounds-again ins junk (m + k) x y step
      ∙ rounds-Waits ins junk k m y s' waits (omega arith) small
      ∙ ap (λ (c : ℕ). rounds drv k t ins junk (record x { port = s'; null_count = c })) same_n

module _ (memory : List ℕ) (rlen : ℕ) (small : rlen < 2 ^ 32) where
  pub init-tailroom : Buffer.tailroom (Buffer.init memory rlen) ≡ rlen
  unfolding Buffer.tailroom Buffer.init
  init-tailroom = omega arith

  -- All the room is taken at once.
  pub reserve_all :
      (memory' : List ℕ)
      → let b = Buffer.reserve rlen (record (Buffer.init memory rlen) { base = memory' }) in
        ((Buffer.tailroom b == 0) ≡ true) × (Buffer.avail b ≡ rlen) × (b.base ≡ memory')
  unfolding Buffer.reserve Buffer.compact Buffer.tailroom Buffer.avail Buffer.init
  reserve_all memory' = ground arith
