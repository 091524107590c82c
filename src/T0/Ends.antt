-- ===== src/T0/Ends.antt =====
-- The loop of `t0_xcv` in proto-t0.c ends.
use open_pgpcard_emu.Base.{
  ℕ, zero, suc, ◌+◌, ◌-◌, ◌%◌, ◌^◌, ◌≤◌, ◌<◌, ◌≡◌, refl, List, ◌||◌, ◌==◌, ◌!=◌, arith, ltb,
  Bool-cases, inl, inr, get_or, take, length, ℤ, pos, negsuc, is_neg,
}
use open_pgpcard_emu.Buffer
use open_pgpcard_emu.Buffer.{
  Buf, add32, avail, tailroom, head_bytes, compact, get, reserve, put, put_fitting,
}
use open_pgpcard_emu.T1.Channel.{Driver, send_command, recv_response}
use open_pgpcard_emu.T0.State.{T0, confused, or_all, t0_send}
use open_pgpcard_emu.T0.Transceive.{
  Outcome, returned, overflow, out_of_fuel, Xcv, Round, again, finished, failed, returned_early,
  overflowed, round, rounds, t0_xcv,
}
use open_pgpcard_emu.T0.Descends.{
  IsOrdered, fuel_left, IsRunning, Descends, get-IsOrdered, avail-lt, round-Descends,
}

abbrev pub IsEnded : Outcome → Type 0
IsEnded (returned r memory) = Unit {0}
IsEnded overflow = Unit {0}
IsEnded out_of_fuel = ⊥

-- The call has ended, and the limit on the null bytes is the same.
abbrev pub HasEnded : {S : Type 0} → ℕ → Outcome × T0 × S → Type 0
HasEnded nulls (o, t, s) = IsEnded o × (t.max_nulls ≡ nulls)

rounds-HasEnded :
    {S : Type 0} (drv : Driver S) (fuel : ℕ) (t : T0) (ins junk : ℕ) (x : Xcv S)
    → IsRunning t.max_nulls x
    → t.max_nulls < 2 ^ 32 - 1
    → fuel_left t.max_nulls x < fuel
    → HasEnded t.max_nulls (rounds drv fuel t ins junk x)
unfolding rounds
rounds-HasEnded drv zero t ins junk x running small enough = absurd (omega arith)
rounds-HasEnded {S} drv (suc fuel) t ins junk x running small enough =
    go (λ y running' less. rounds-HasEnded drv fuel t ins junk y running' small (omega arith))
      (round drv t ins junk x) (round-Descends drv t ins junk x running small)
  where
    go :
        ((y : Xcv S)
          → IsRunning t.max_nulls y
          → fuel_left t.max_nulls y < fuel_left t.max_nulls x
          → HasEnded t.max_nulls (rounds drv fuel t ins junk y))
        → (r : Round S) → Descends t.max_nulls (fuel_left t.max_nulls x) r
        → HasEnded t.max_nulls (elim r as (λ _. Outcome × T0 × S) [
          | again y ↦ rounds drv fuel t ins junk y
          | finished y ↦ (returned (pos (Buffer.avail y.rbuf)) y.rbuf.base, t, y.port)
          | failed y ↦ (returned (negsuc 0) y.rbuf.base, record t { phase = confused }, y.port)
          | returned_early y ↦ (returned (negsuc 0) y.rbuf.base, t, y.port)
          | overflowed s ↦ (overflow, t, s)
        ])
    go ih (again y) (running', less) = ih y running' less
    go ih (finished y) d = (tt, refl)
    go ih (failed y) d = (tt, refl)
    go ih (returned_early y) d = (tt, refl)
    go ih (overflowed s) d = (tt, refl)

send-shrinks :
    {S : Type 0} (drv : Driver S) (count : ℤ) (b : Buf) (s : S)
    → IsOrdered b
    → let b' = (t0_send drv count b s).1 in IsOrdered b' × (b'.tail - b'.head ≤ b.tail - b.head)
unfolding t0_send
send-shrinks drv count b s ordered =
    let n = or_all (avail b) count in
    let all = avail-lt b ordered in
    elim (Bool-cases (ltb (avail b) n || avail b == 0)) [
      | inl refused ↦ rw refused (ordered, omega arith)
      | inr fits ↦
          let sent = send_command drv s (head_bytes b n) in
          let (ordered', less) = get-IsOrdered n b ordered (ground arith) in
          rw fits (elim (Bool-cases (is_neg sent.0)) [
            | inl error ↦ rw error (ordered, omega arith)
            | inr fine ↦ rw fine (ordered', omega arith)
          ])
    ]

-- A call of `t0_xcv` whose fuel is more than the bytes to be sent, the room for the answer and the
-- null bytes that are borne.
pub xcv-HasEnded :
    {S : Type 0} (drv : Driver S) (fuel : ℕ) (t : T0) (junk : ℕ) (sdata : List ℕ) (slen : ℕ)
    (memory : List ℕ) (rlen : ℕ) (s : S)
    → t.max_nulls < 2 ^ 32 - 1
    → slen < 2 ^ 32
    → rlen < 2 ^ 32
    → slen + rlen + t.max_nulls < fuel
    → HasEnded t.max_nulls (t0_xcv drv fuel t junk sdata slen memory rlen s)
unfolding t0_xcv Buffer.set_full Buffer.init
xcv-HasEnded drv fuel t junk sdata slen memory rlen s nulls small_s small_r enough =
    elim (Bool-cases (t.block_oriented != 0)) [
      | inl blocks ↦
          let sent = send_command drv s (take slen sdata) in
          let got = recv_response drv sent.1 rlen t.timeout in
          rw blocks (elim (Bool-cases (is_neg sent.0)) [
            | inl error ↦ rw error (tt, refl)
            | inr fine ↦ rw fine (elim (Bool-cases (ltb (length memory) (length got.1))) [
              | inl over ↦ rw over (tt, refl)
              | inr within ↦ rw within (tt, refl)
            ])
          ])
      | inr bytes ↦
          let b = Buffer.set_full sdata slen in
          let out = t0_send drv (pos 5) b s in
          rw bytes (elim (Bool-cases (is_neg out.0)) [
            | inl error ↦ rw error (tt, refl)
            | inr fine ↦
                let same_s : slen % 2 ^ 32 ≡ slen = omega arith in
                let same_r : rlen % 2 ^ 32 ≡ rlen = omega arith in
                let (ordered, less) =
                  send-shrinks drv (pos 5) b s (omega arith, omega arith, omega arith) in
                rw fine (
                  rounds-HasEnded drv fuel t (get_or sdata 1 0) junk
                    (record {
                      port = out.2;
                      sbuf = out.1;
                      rbuf = Buffer.init memory rlen;
                      null_count = 0;
                    })
                    (ordered, (omega arith, omega arith, omega arith), refl, omega arith) nulls
                    (omega arith))
          ])
    ]
