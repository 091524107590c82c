-- ===== src/T0/Total.antt =====
-- `t0_transceive` of proto-t0.c ends, whatever the card does.
use open_pgpcard_emu.Base.{
  ℕ, zero, suc, ◌+◌, ◌-◌, ◌%◌, ◌^◌, ◌≤◌, ◌<◌, ◌≡◌, refl, ◌∙◌, List, [], ◌∷◌, ◌||◌, ◌==◌, ◌!=◌,
  arith, ltb, if◌then◌else◌, Bool-cases, inl, inr, Option, none, some, get_or, length, pos, negsuc,
  AreBytes, drop,
}
use open_pgpcard_emu.Base.Bits.{get_or-lt}
use open_pgpcard_emu.Apdu.{Iso, Case, case_1, case_2s, case_3s, case_4s, iso_apdu_parse, apdu_check}
use open_pgpcard_emu.T1.Channel.{Driver}
use open_pgpcard_emu.T0.State.{T0, t0_resynch, sending, receiving}
use open_pgpcard_emu.T0.Transceive.{
  Outcome, returned, overflow, out_of_fuel, t0_xcv, done, response_length, get_response, after_send,
  outgoing, from_idle, transceive, is_idle,
}
use open_pgpcard_emu.T0.Ends.{IsEnded, HasEnded, xcv-HasEnded}

drop-AreBytes : (n : ℕ) (xs : List ℕ) → AreBytes xs → AreBytes (drop n xs)
drop-AreBytes zero xs h = h
drop-AreBytes (suc n) [] h = tt
drop-AreBytes (suc n) (x ∷ xs) (_, h) = drop-AreBytes n xs h

-- The length of the answer that a short command asks for.
le-le : (sbuf : List ℕ) (iso : Iso) → AreBytes sbuf → iso_apdu_parse sbuf ≡ some iso → iso.le ≤ 256
unfolding iso_apdu_parse apdu_check
le-le sbuf iso bytes parsed = ground (
  arith,
  get_or-lt sbuf 4 bytes,
  get_or-lt (drop 5 sbuf) (if get_or sbuf 4 0 == 0 then 256 else get_or sbuf 4 0)
      (drop-AreBytes 5 sbuf bytes),
)

response_length-le :
    {S : Type 0} (drv : Driver S) (sw₁ sw₂ le n : ℕ)
    → response_length drv sw₁ sw₂ le ≡ some n
    → n ≤ le
unfolding response_length
response_length-le drv sw₁ sw₂ le n e = ground arith

module _ {S : Type 0} (drv : Driver S) (fuel junk : ℕ) where
  done-HasEnded :
      (nulls : ℕ) (out : Outcome × T0 × S) → HasEnded nulls out → HasEnded nulls (done drv out)
  unfolding done
  done-HasEnded nulls (o, t, s) ended = ended

  get_response-HasEnded :
      (cla le : ℕ) (memory : List ℕ) (t : T0) (s : S)
      → t.max_nulls < 2 ^ 32 - 1
      → le ≤ 256
      → 263 + t.max_nulls < fuel
      → HasEnded t.max_nulls (get_response drv fuel junk cla le memory t s)
  unfolding get_response
  get_response-HasEnded cla le memory t s nulls small enough =
      go (response_length drv (get_or memory 0 0) (get_or memory 1 0) le)
        (response_length-le drv (get_or memory 0 0) (get_or memory 1 0) le)
    where
      go :
          (o : Option ℕ)
          → ((n : ℕ) → o ≡ some n → n ≤ le)
          → HasEnded t.max_nulls (elim o as (λ _. Outcome × T0 × S) [
            | none ↦ done drv (returned (pos 2) memory, t, s)
            | some n ↦ done drv (
                t0_xcv drv fuel
                  (record t { phase = receiving })
                  junk
                  (cla ∷ 0xC0 ∷ 0x00 ∷ 0x00 ∷ n % 256 ∷ [])
                  5
                  memory
                  (n + 2)
                  s)
          ])
      go none h = done-HasEnded t.max_nulls (returned (pos 2) memory, t, s) (tt, refl)
      go (some n) h =
          let less = h n refl in
          let t' = record t { phase = receiving } in
          let cmd : List ℕ = cla ∷ 0xC0 ∷ 0x00 ∷ 0x00 ∷ n % 256 ∷ [] in
          done-HasEnded t.max_nulls (t0_xcv drv fuel t' junk cmd 5 memory (n + 2) s) (
            xcv-HasEnded drv fuel t' junk cmd 5 memory (n + 2) s nulls (omega arith) (omega arith)
              (omega arith))

  after_send-HasEnded :
      (iso : Iso) (nulls : ℕ) (out : Outcome × T0 × S)
      → iso.le ≤ 256
      → nulls < 2 ^ 32 - 1
      → 263 + nulls < fuel
      → HasEnded nulls out
      → HasEnded nulls (after_send drv fuel junk iso out)
  unfolding after_send done
  after_send-HasEnded iso nulls (returned (negsuc e) memory, t, s) le small enough ended = ended
  after_send-HasEnded iso nulls (returned (pos rc) memory, t, s) le small enough (_, same) =
      elim (Bool-cases (ltb 2 rc)) [
        | inl whole ↦ rw whole (tt, same)
        | inr status ↦ rw status (elim (Bool-cases (rc != 2)) [
          | inl short ↦ rw short (tt, same)
          | inr two ↦ rw two (go iso.cse)
        ])
      ]
    where
      go :
          (c : Case)
          → HasEnded nulls (elim c as (λ _. Outcome × T0 × S) [
            | case_4s ↦ get_response drv fuel junk iso.cla iso.le memory t s
            | _ ↦ done drv (returned (pos rc) memory, t, s)
          ])
      go case_1 = (tt, same)
      go case_2s = (tt, same)
      go case_3s = (tt, same)
      go case_4s =
          let (ended, same') =
            get_response-HasEnded iso.cla iso.le memory t s (omega arith) le (omega arith) in
          (ended, same' ∙ same)
  after_send-HasEnded iso nulls (overflow, t, s) le small enough ended = ended
  after_send-HasEnded iso nulls (out_of_fuel, t, s) le small enough (ended, _) = absurd ended

  outgoing-le : (c : Case) (sbuf : List ℕ) → (outgoing drv c sbuf).1 ≤ 5 + length sbuf
  unfolding outgoing
  outgoing-le case_1 sbuf = omega arith
  outgoing-le case_2s sbuf = omega arith
  outgoing-le case_3s sbuf = omega arith
  outgoing-le case_4s sbuf = omega arith

  from_idle-IsEnded :
      (t : T0) (sbuf rbuf : List ℕ) (s : S)
      → AreBytes sbuf
      → t.max_nulls < 2 ^ 32 - 1
      → length sbuf < 2 ^ 32 - 5
      → length rbuf < 2 ^ 32
      → 263 + length sbuf + length rbuf + t.max_nulls < fuel
      → IsEnded (from_idle drv fuel t junk sbuf rbuf s).0
  unfolding from_idle
  from_idle-IsEnded t sbuf rbuf s bytes nulls small_s small_r enough =
      elim (Bool-cases (ltb (length sbuf) 4 || ltb (length rbuf) 2)) [
        | inl short ↦ rw short tt
        | inr fits ↦ rw fits (go (iso_apdu_parse sbuf) (λ iso e. le-le sbuf iso bytes e))
      ]
    where
      go :
          (o : Option Iso)
          → ((iso : Iso) → o ≡ some iso → iso.le ≤ 256)
          → IsEnded
              (elim o as (λ _. Outcome × T0 × S) [
                | none ↦ (returned (negsuc 0) rbuf, t, s)
                | some iso ↦
                    let (sdata, slen) = outgoing drv iso.cse sbuf in
                    if iso.lc != 0
                    then after_send drv fuel junk iso (
                        t0_xcv drv fuel
                          (record t { phase = sending })
                          junk
                          sdata
                          slen
                          rbuf
                          (length rbuf)
                          s)
                    else done drv (
                        t0_xcv drv fuel
                          (record t { phase = receiving })
                          junk
                          sdata
                          slen
                          rbuf
                          (iso.le + 2)
                          s)
              ]).0
      go none h = tt
      go (some iso) h =
          let le = h iso refl in
          let out = outgoing drv iso.cse sbuf in
          let short = outgoing-le iso.cse sbuf in
          let t_s = record t { phase = sending } in
          let t_r = record t { phase = receiving } in
          elim (Bool-cases (iso.lc != 0)) [
            | inl data_follows ↦
                rw data_follows
                  (after_send-HasEnded iso t.max_nulls
                    (t0_xcv drv fuel t_s junk out.0 out.1 rbuf (length rbuf) s) le nulls
                    (omega arith)
                    (xcv-HasEnded drv fuel t_s junk out.0 out.1 rbuf (length rbuf) s nulls
                      (omega arith) small_r (omega arith))).0
            | inr no_data ↦
                rw no_data
                  (done-HasEnded t.max_nulls
                    (t0_xcv drv fuel t_r junk out.0 out.1 rbuf (iso.le + 2) s)
                    (xcv-HasEnded drv fuel t_r junk out.0 out.1 rbuf (iso.le + 2) s nulls
                      (omega arith) (omega arith) (omega arith))).0
          ]

-- `t0_transceive` of a command of bytes ends, whatever the card does: more rounds of each `t0_xcv`
-- than 263 and the bytes of the command, the bytes of room for the answer and the null bytes that
-- are borne are enough. A write of the driver behind the caller's memory counts as an end. The limit
-- on the null bytes is less than 2^32 - 1.
pub transceive-IsEnded :
    {S : Type 0} (drv : Driver S) (fuel : ℕ) (t : T0) (junk : ℕ) (sbuf rbuf : List ℕ) (s : S)
    → AreBytes sbuf
    → t.max_nulls < 2 ^ 32 - 1
    → length sbuf < 2 ^ 32 - 5
    → length rbuf < 2 ^ 32
    → 263 + length sbuf + length rbuf + t.max_nulls < fuel
    → IsEnded (transceive drv fuel t junk sbuf rbuf s).0
unfolding transceive t0_resynch
transceive-IsEnded drv fuel t junk sbuf rbuf s bytes nulls small_s small_r enough =
    elim (Bool-cases (is_idle t.phase)) [
      | inl ready ↦
          rw ready
            (from_idle-IsEnded drv fuel junk t sbuf rbuf s bytes nulls small_s small_r enough)
      | inr busy ↦ rw busy tt
    ]
