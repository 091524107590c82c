-- ===== src/Firmware/Wire.antt =====
-- A serial line that loses and delays nothing, as ArduinoCardEmu/comm_helper.cpp sees it, and what
-- a piece of the firmware does there: the bytes it takes and the bytes it gives.
use open_pgpcard_emu.Base.{
  ℕ, suc, ◌+◌, ◌-◌, ◌%◌, ◌^◌, ◌≤◌, ◌≡◌, ◌≢◌, refl, ◌∙◌, sym, ap, List, [], ◌∷◌, ◌++◌, append-nil,
  append_assoc, ne→==_false, length, take, drop,
}
use open_pgpcard_emu.Base.Run.{Run, ok, ◌>>=◌, pure}
use open_pgpcard_emu.Firmware.Board.{Board, Stuck}
use open_pgpcard_emu.Firmware.Comm.{wait_available, write_byte, write_bytes}

-- `inbox` is what was sent to the firmware and not read, `outbox` what it wrote and nobody read.
pub record IsWired {S : Type 0} (board : Board S) (inbox outbox : S → List ℕ) : Type 0 where
  pub waits :
      (s : S)
      → inbox s ≢ []
      → ((board.available s).0 ≢ 0)
        × (inbox (board.available s).1 ≡ inbox s)
        × (outbox (board.available s).1 ≡ outbox s)
  pub reads :
      (n : ℕ) (s : S)
      → n ≤ length (inbox s)
      → ((board.read_bytes n s).0 ≡ take n (inbox s))
        × (inbox (board.read_bytes n s).1 ≡ drop n (inbox s))
        × (outbox (board.read_bytes n s).1 ≡ outbox s)
  pub writes :
      (b : ℕ) (s : S)
      → ((board.write b s).0 ≢ 0)
        × (inbox (board.write b s).1 ≡ inbox s)
        × (outbox (board.write b s).1 ≡ outbox s ++ b ∷ [])
  pub ticks :
      (s : S) → (inbox (board.millis s).1 ≡ inbox s) × (outbox (board.millis s).1 ≡ outbox s)
  -- Bytes that are there are read within the half second that the firmware allows.
  pub prompt :
      (n : ℕ) (s : S)
      → n ≤ length (inbox s)
      → let t = (board.millis s).1 in
        ((board.millis (board.read_bytes n t).1).0 + 2 ^ 32 - (board.millis s).0) % 2 ^ 32 ≤ 500

module _ {S : Type 0} (inbox outbox : S → List ℕ) where
  -- The run ends well with this value, leaves this in the inbox, and has written these bytes.
  abbrev pub Does : {A : Type 0} → Run S Stuck A → S → A → List ℕ → List ℕ → Type 0
  Does m s a rest bytes =
      ((m s).0 ≡ ok a) × (inbox (m s).1 ≡ rest) × (outbox (m s).1 ≡ outbox s ++ bytes)

  pub pure-Does :
      {A : Type 0} (a : A) (s : S) (rest : List ℕ) → inbox s ≡ rest → Does (pure a) s a rest []
  pure-Does a s rest same = (refl, same, sym (append-nil (outbox s)))

  pub bind-Does :
      {A B : Type 0} (m : Run S Stuck A) (k : A → Run S Stuck B) (s : S) (a : A) (b : B)
      (mid rest out₁ out₂ : List ℕ)
      → Does m s a mid out₁
      → ((t : S) → inbox t ≡ mid → Does (k a) t b rest out₂)
      → Does (m >>= k) s b rest (out₁ ++ out₂)
  bind-Does m k s a b mid rest out₁ out₂ (e, i, o) next =
      let t = (m s).1 in
      rw e (
        (next t i).0,
        (next t i).1,
        (next t i).2 ∙ ap (λ (xs : List ℕ). xs ++ out₂) o ∙ append_assoc (outbox s) out₁ out₂,
      )

  module _ (board : Board S) (wired : IsWired board inbox outbox) where
    pub wait_available-Does :
        (n : ℕ) (s : S) (rest : List ℕ)
        → inbox s ≡ rest
        → rest ≢ []
        → Does (wait_available board (suc n)) s tt rest []
    unfolding wait_available
    wait_available-Does n s rest same some_byte =
        let (some_count, i, o) = wired.waits s (λ none. some_byte (sym same ∙ none)) in
        rw (ne→==_false _ _ some_count, wait_available)
          (refl, i ∙ same, o ∙ sym (append-nil (outbox s)))

    write_byte-Does :
        (n b : ℕ) (s : S) (rest : List ℕ)
        → inbox s ≡ rest
        → Does (write_byte board (suc n) b) s tt rest (b ∷ [])
    unfolding write_byte
    write_byte-Does n b s rest same =
        let (some_count, i, o) = wired.writes b s in
        rw (ne→==_false _ _ some_count, write_byte) (refl, i ∙ same, o)

    pub write_bytes-Does :
        (n : ℕ) (bytes : List ℕ) (s : S) (rest : List ℕ)
        → inbox s ≡ rest
        → Does (write_bytes board (suc n) bytes) s tt rest bytes
    unfolding write_bytes
    write_bytes-Does n [] s rest same = pure-Does tt s rest same
    write_bytes-Does n (b ∷ bytes) s rest same =
        bind-Does (write_byte board (suc n) b) (λ _. write_bytes board (suc n) bytes) s tt tt rest
          rest (b ∷ []) bytes (write_byte-Does n b s rest same)
          (λ t. write_bytes-Does n bytes t rest)
