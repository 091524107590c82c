-- ===== src/Firmware/Timeouts.antt =====
-- The loop of `ReceiveRequest` in ArduinoCardEmu/comm_helper.cpp that reads the body of a request
-- ends, whatever is on the line, if the serial port keeps to its timeout as Arduino's does. The
-- port of StandaloneAppSrc/serial.cpp does not: its `setTimeout` is empty.
use open_pgpcard_emu.Base.{
  ℕ, zero, suc, ◌+◌, ◌-◌, ◌*◌, ◌%◌, ◌^◌, ◌≤◌, ◌<◌, ◌≡◌, ◌∙◌, sym, ap, subst, false, List, Option,
  arith, ltb, length, Bool-cases, inl, inr,
}
use open_pgpcard_emu.Base.Run.{Result, ok, err, and_then, pure}
use open_pgpcard_emu.Firmware.Board.{Board, Stuck}
use open_pgpcard_emu.Firmware.Comm.{read_body, receive_body, checked}

-- What Arduino documents of `readBytes` and `millis()`, where `clock` is the time since the start in
-- milliseconds. The timeout that `CommHelper::Init` sets, 500 ms, is that of each byte: `readBytes`
-- gives no more bytes than asked for, and fewer only when one has not come in that time, and waits
-- for each byte for the timeout at most, with as much again for the work around it. `millis()` wraps
-- at 32 bits, and to read it takes no time.
pub record IsTimed {S : Type 0} (board : Board S) (clock : S → ℕ) : Type 0 where
  pub shows : (s : S) → (board.millis s).0 ≡ clock s % 2 ^ 32
  pub stands : (s : S) → clock (board.millis s).1 ≡ clock s
  pub at_most : (n : ℕ) (s : S) → length (board.read_bytes n s).0 ≤ n
  pub late :
      (n : ℕ) (s : S)
      → length (board.read_bytes n s).0 < n
      → clock s + 500 ≤ clock (board.read_bytes n s).1
  pub forward : (n : ℕ) (s : S) → clock s ≤ clock (board.read_bytes n s).1
  pub soon : (n : ℕ) (s : S) → clock (board.read_bytes n s).1 ≤ clock s + n * 1000

-- The difference of two readings of the clock.
elapsed : (a b : ℕ) → a ≤ b → b < a + 2 ^ 32 → (b % 2 ^ 32 + 2 ^ 32 - a % 2 ^ 32) % 2 ^ 32 ≡ b - a
elapsed a b le lt = omega arith

ltb-false : (a b : ℕ) → ltb a b ≡ false → b ≤ a
ltb-false a b h = ground arith

-- A read of less than 256 bytes is over in 256 seconds.
clock_in_range : (n now from : ℕ) → n < 256 → now ≤ from + n * 1000 → now ≤ from + 256000
clock_in_range n now from small h = omega arith

-- The run ended, and not for want of fuel.
abbrev pub IsDone : {A : Type 0} → Result Stuck A → Type 0
IsDone (ok a) = Unit
IsDone (err e) = ⊥

module _ {S : Type 0} (board : Board S) (clock : S → ℕ) (timed : IsTimed board clock) where
  nothing_left :
      (fuel rem rem_sz start : ℕ) (buff : List ℕ) (s : S)
      → rem ≡ 0
      → IsDone (read_body board fuel rem rem_sz start buff s).0
  unfolding read_body
  nothing_left zero rem rem_sz start buff s e = rw (e, read_body) tt
  nothing_left (suc fuel) rem rem_sz start buff s e = rw (e, read_body) tt

  -- Where `rest` ends the loop after a short read, the round that precedes it does.
  round-IsDone :
      (fuel rem rem_sz begin : ℕ) (buff : List ℕ) (s : S)
      → rem < 256
      → begin ≤ clock s
      → clock s ≤ begin + 60000
      → ((rem' : ℕ) (buff' : List ℕ) (t : S)
          → rem' < 256
          → clock s + 500 ≤ clock t
          → clock t ≤ begin + 500
          → IsDone (read_body board fuel rem' rem_sz (begin % 2 ^ 32) buff' t).0)
      → IsDone (read_body board (suc fuel) rem rem_sz (begin % 2 ^ 32) buff s).0
  unfolding read_body
  round-IsDone fuel zero rem_sz begin buff s small lo hi rest = tt
  round-IsDone fuel (suc rem) rem_sz begin buff s small lo hi rest =
      elim (Bool-cases (ltb 500 gone)) [
        | inl over ↦ rw (over, read_body) tt
        | inr in_time ↦
            rw (in_time, read_body)
              (elim (Bool-cases (ltb (length bytes) (suc rem))) [
                | inl short ↦
                    rest _ _ u (omega arith)
                      (omega (arith, timed.late (suc rem) s (ground arith), timed.stands t))
                      (omega (
                        arith,
                        ltb-false 500 gone in_time,
                        gone-clock,
                        timed.stands t,
                        timed.forward (suc rem) s,
                      ))
                | inr full ↦
                    let all_read : length bytes ≡ suc rem =
                      omega (arith, ltb-false _ _ full, timed.at_most (suc rem) s) in
                    nothing_left fuel _ rem_sz _ _ u (omega (arith, all_read, small))
              ])
      ]
    where
      bytes : List ℕ
      bytes = (board.read_bytes (suc rem) s).0

      t : S
      t = (board.read_bytes (suc rem) s).1

      u : S
      u = (board.millis t).1

      gone : ℕ
      gone = ((board.millis t).0 + 2 ^ 32 - begin % 2 ^ 32) % 2 ^ 32

      gone-clock : gone ≡ clock t - begin
      gone-clock =
          ap (λ now. (now + 2 ^ 32 - begin % 2 ^ 32) % 2 ^ 32) (timed.shows t)
          ∙ elapsed begin (clock t) (omega (arith, timed.forward (suc rem) s)) (
              omega (
                arith,
                clock_in_range (suc rem) (clock t) (clock s) small (timed.soon (suc rem) s),
              ))

  read_body-IsDone :
      (fuel rem rem_sz : ℕ) (buff : List ℕ) (s : S)
      → rem < 256
      → IsDone (read_body board (suc (suc fuel)) rem rem_sz (clock s % 2 ^ 32) buff s).0
  read_body-IsDone fuel rem rem_sz buff s small =
      round-IsDone (suc fuel) rem rem_sz (clock s) buff s small (omega arith) (omega arith)
        (λ rem' buff' t small' later early.
          round-IsDone fuel rem' rem_sz (clock s) buff' t small' (omega arith) (omega arith)
            (λ rem'' buff'' u small'' later' early'. absurd (omega arith)))

  -- On a board whose `readBytes` and `millis()` keep to the timeout of 500 ms for each byte as
  -- Arduino documents it, `ReceiveRequest` has read or given up the body of a request of at most 255
  -- bytes after two calls of `readBytes`, whatever bytes come and in whatever pieces.
  pub receive_body-IsDone :
      (fuel req rem_sz : ℕ) (buff : List ℕ) (s : S)
      → rem_sz < 256
      → IsDone (receive_body board (suc (suc fuel)) req rem_sz buff s).0
  unfolding receive_body
  receive_body-IsDone fuel req rem_sz buff s small =
      after
        (read_body board (suc (suc fuel)) rem_sz rem_sz (board.millis s).0 buff
          (board.millis s).1).0
        _
        (subst
          (λ (start : ℕ).
            IsDone (read_body board (suc (suc fuel)) rem_sz rem_sz start buff (board.millis s).1).0)
          (ap (λ (c : ℕ). c % 2 ^ 32) (timed.stands s) ∙ sym (timed.shows s))
          (read_body-IsDone fuel rem_sz rem_sz buff (board.millis s).1 small))
    where
      after :
          (r : Result Stuck (Option (List ℕ))) (t : S)
          → IsDone r
          → IsDone (and_then r t (λ body. pure (checked req rem_sz body))).0
      after (ok body) t done = tt
      after (err e) t done = done
