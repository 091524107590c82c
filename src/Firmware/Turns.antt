-- ===== src/Firmware/Turns.antt =====
-- `loop` of ArduinoCardEmu/main_loop.cpp, with `resync` called from it, as a sequence of turns.
use open_pgpcard_emu.Base.{ℕ, zero, suc, ◌≡◌, refl, Bool, true, false, Option, none, some}
use open_pgpcard_emu.Base.Run.{Result, Run, ok, err, and_then, ◌>>=◌, ◌>>◌, pure}
use open_pgpcard_emu.Firmware.Board.{Board, Stuck, no_fuel}
use open_pgpcard_emu.Firmware.Loop.{
  Globals, loop_round, resync_round, resync_loop, run_resync, send_resync, loop,
}
use open_pgpcard_emu.Firmware.React.{
  Mode, in_loop, in_resync, Node, after_loop_round, after_resync_round, turn_in, turn,
}

module _ {S : Type 0} (board : Board S) (patience rounds : ℕ) where
  -- Turns until the firmware is in `loop` again.
  abbrev until_loop : ℕ → Mode → Globals → Run S Stuck Globals
  until_loop fuel in_loop g s = pure g s
  until_loop zero (in_resync state) g s = (err no_fuel, s)
  until_loop (suc fuel) (in_resync state) g s =
      (turn_in board patience rounds (in_resync state) g >>= λ node.
      until_loop fuel node.mode node.globals)
        s

  resync_loop-until_loop :
      (fuel state : ℕ) (g : Globals) (s : S)
      → (resync_loop board patience rounds fuel state >> pure g) s
        ≡ until_loop fuel (in_resync state) g s
  unfolding resync_loop turn_in after_resync_round
  resync_loop-until_loop zero state g s = refl
  resync_loop-until_loop (suc fuel) state g s =
      after (resync_round board patience rounds state s).0
        (resync_round board patience rounds state s).1
        (λ state'. resync_loop-until_loop fuel state' g)
    where
      direct : Option ℕ → Run S Stuck (Unit {0})
      direct none = pure tt
      direct (some state') = resync_loop board patience rounds fuel state'

      machine : Option ℕ → Run S Stuck Node
      machine next = pure (after_resync_round board patience rounds next g)

      after :
          (r : Result Stuck (Option ℕ)) (t : S)
          → ((state' : ℕ) (u : S)
              → (direct (some state') >> pure g) u ≡ until_loop fuel (in_resync state') g u)
          → and_then (and_then r t direct).0 (and_then r t direct).1 (λ _. pure g)
            ≡ and_then
                (and_then r t machine).0
                (and_then r t machine).1
                (λ node. until_loop fuel node.mode node.globals)
      after (err e) t rest = refl
      after (ok none) t rest = refl
      after (ok (some state')) t rest = rest state' t

  -- On every serial port, `loop` does what the machine does that takes one request for each turn,
  -- until it is in `loop` again, with the same fuel for the resynchronisation.
  loop-turns :
      (fuel : ℕ) (g : Globals) (s : S)
      → loop board patience rounds fuel g s
        ≡ (turn board patience rounds (record { mode = in_loop; globals = g }) >>= λ node.
              until_loop fuel node.mode node.globals)
            s
  unfolding loop run_resync turn turn_in after_loop_round
  loop-turns fuel g s =
      after (loop_round board patience rounds g s).0 (loop_round board patience rounds g s).1
    where
      reset : Globals → Globals
      reset g' = record g' { write_pending = 0 }

      rest : Node → Run S Stuck Globals
      rest node = until_loop fuel node.mode node.globals

      direct : Bool × Globals → Run S Stuck Globals
      direct out = elim out.0 [
        | true ↦ pure out.1
        | false ↦ run_resync board patience rounds fuel >> pure (reset out.1)
      ]

      machine : Bool × Globals → Run S Stuck Node
      machine out = after_loop_round board patience rounds out.0 out.1

      notified :
          (g' : Globals) (r : Result Stuck (Unit {0})) (u : S)
          → let out = and_then r u (λ _. resync_loop board patience rounds fuel 0) in
            let node =
              and_then {B = Node} r u
                (λ _. pure (record { mode = in_resync 0; globals = reset g' })) in
            and_then out.0 out.1 (λ _. pure (reset g')) ≡ and_then node.0 node.1 rest
      notified g' (err e) u = refl
      notified g' (ok _) u = resync_loop-until_loop fuel 0 (reset g') u

      after :
          (r : Result Stuck (Bool × Globals)) (t : S)
          → and_then r t direct ≡ and_then (and_then r t machine).0 (and_then r t machine).1 rest
      after (err e) t = refl
      after (ok (true, g')) t = refl
      after (ok (false, g')) t =
          notified g' (send_resync board patience rounds t).0
            (send_resync board patience rounds t).1
