-- ===== src/Firmware/Implements.antt =====
-- ArduinoCardEmu/main_loop.cpp answers what the table in React says.
use open_pgpcard_emu.Base.{
  ℕ, suc, ◌≤◌, ◌≡◌, subst, Bool, true, false, List, [], ◌∷◌, ◌++◌, append-nil, Option, none, some,
  arith, ltb, ◌==◌, take, drop, Bool-cases, inl, inr, if◌then◌else◌, get_or, length,
}
use open_pgpcard_emu.Base.Run.{Run, ◌>>=◌, pure}
use open_pgpcard_emu.Firmware.Answer.{answer_frame, send_answer-Does}
use open_pgpcard_emu.Firmware.Board.{Board, Stuck}
use open_pgpcard_emu.Firmware.Comm.{
  ReqType, invalid, card_status, card_send, card_commit, card_read, card_read_complete,
  resync_complete, resync, AnsType, card_absent, card_present, card_eod, ok_answer, Request,
  send_answer,
}
use open_pgpcard_emu.Firmware.Loop.{
  Globals, is_card_present, set_card_status, atr, reply, card_reset, send_atr, dispatch,
  handle_status, handle_send, handle_commit, after_reset,
}
use open_pgpcard_emu.Firmware.React.{Answer, bare, atr_answers, serve, frames, announced}
use open_pgpcard_emu.Firmware.Wire.{IsWired, Does, pure-Does, bind-Does}

-- What a round of `loop` does with a request it serves or refuses.
abbrev pub outcome : Option (List Answer × Globals) → Globals → Bool × Globals
outcome (some (answers, g')) g = (true, g')
outcome none g = (false, g)

abbrev pub said : Option (List Answer × Globals) → List ℕ
said (some (answers, g')) = frames answers
said none = []

module _ {S : Type 0} (board : Board S) (inbox outbox : S → List ℕ)
    (wired : IsWired board inbox outbox) (room : length board.stack ≡ 16)
    (patience rounds : ℕ) where
  -- An answer, and what follows it.
  pub then-Does :
      {B : Type 0} (ans : AnsType) (payload : List ℕ) (k : Bool → Run S Stuck B) (s : S) (b : B)
      (rest out : List ℕ)
      → length payload ≤ 14
      → inbox s ≡ rest
      → ((t : S) → inbox t ≡ rest → Does inbox outbox (k true) t b rest out)
      → Does inbox outbox
          (send_answer board (suc patience) ans payload (length payload) >>= k)
          s
          b
          rest
          (answer_frame ans payload ++ out)
  then-Does ans payload k s b rest out short same next =
      bind-Does inbox outbox (send_answer board (suc patience) ans payload (length payload)) k s
        true b rest rest (answer_frame ans payload) out
        (send_answer-Does board inbox outbox wired patience ans payload s rest short room same) next

  reply-Does :
      (ans : AnsType) (g : Globals) (s : S) (rest : List ℕ)
      → inbox s ≡ rest
      → Does inbox outbox
          (reply board (suc patience) rounds ans g)
          s
          (true, g)
          rest
          (frames (bare ans))
  unfolding reply
  reply-Does ans g s rest same =
      then-Does ans [] (λ sent. pure (sent, g)) s (true, g) rest [] (omega arith) same
        (λ t. pure-Does inbox outbox (true, g) t rest)

  card_reset-Does :
      (s : S) (rest : List ℕ)
      → inbox s ≡ rest
      → Does inbox outbox (card_reset board (suc patience) rounds) s true rest (frames atr_answers)
  unfolding card_reset send_atr
  card_reset-Does s rest same =
      then-Does card_present (21 ∷ [])
        (λ sent. elim sent [
          | true ↦ send_atr board (suc patience) rounds 21 21
          | false ↦ pure false
        ])
        s true rest _ (omega arith) same
        (λ t same₁.
          then-Does card_present (take 14 atr)
            (λ sent. elim sent [
              | true ↦ send_atr board (suc patience) rounds 20 7
              | false ↦ pure false
            ])
            t true rest _ (omega arith) same₁
            (λ u same₂.
              then-Does card_present (drop 14 atr)
                (λ sent. elim sent [
                  | true ↦ send_atr board (suc patience) rounds 19 0
                  | false ↦ pure false
                ])
                u true rest _ (omega arith) same₂
                (λ v same₃. pure-Does inbox outbox true v rest same₃)))

  abbrev pub Serves :
      Run S Stuck (Bool × Globals) → Option (List Answer × Globals) → Globals → S → List ℕ → Type 0
  Serves run served g s rest = Does inbox outbox run s (outcome served g) rest (said served)

  status-Serves :
      (request : Request) (g : Globals) (s : S) (rest : List ℕ)
      → inbox s ≡ rest
      → Serves
          (handle_status board (suc patience) rounds request g)
          (serve request card_status g)
          g
          s
          rest
  unfolding handle_status after_reset
  status-Serves request g s rest same = elim (Bool-cases (request.pl_len == 0)) [
    | inl query ↦
        rw (query, handle_status)
          (reply-Does (if is_card_present g then card_present else card_absent) g s rest same)
    | inr action ↦ elim (Bool-cases (get_or request.payload 0 0 == 0)) [
      | inl off ↦
          rw (action, handle_status)
            (rw (off, handle_status) (reply-Does card_absent (set_card_status false g) s rest same))
      | inr on ↦
          rw (action, handle_status)
            (rw (on, handle_status)
              (subst (Does inbox outbox reset s (true, set_card_status true g) rest)
                (append-nil (frames atr_answers))
                (bind-Does inbox outbox (card_reset board (suc patience) rounds)
                  (λ sent. pure (after_reset board (suc patience) rounds sent g)) s true
                  (true, set_card_status true g) rest rest (frames atr_answers) []
                  (card_reset-Does s rest same)
                  (λ t. pure-Does inbox outbox (true, set_card_status true g) t rest))))
    ]
  ]
    where
      reset : Run S Stuck (Bool × Globals)
      reset = card_reset board (suc patience) rounds >>= λ sent.
          pure (after_reset board (suc patience) rounds sent g)

  send-Serves :
      (request : Request) (g : Globals) (s : S) (rest : List ℕ)
      → inbox s ≡ rest
      → Serves
          (handle_send board (suc patience) rounds request g)
          (serve request card_send g)
          g
          s
          rest
  unfolding handle_send
  send-Serves request g s rest same = elim (Bool-cases (ltb 0 g.write_pending)) [
    | inl more ↦ rw (more, handle_send) (reply-Does ok_answer g s rest same)
    | inr first ↦ elim (Bool-cases (request.pl_len == 2)) [
      | inl two ↦
          rw (first, handle_send)
            (rw (two, handle_send)
              (reply-Does ok_answer (record g { write_pending = announced request.payload }) s rest
                same))
      | inr other ↦
          rw (first, handle_send)
            (rw (other, handle_send) (pure-Does inbox outbox (false, g) s rest same))
    ]
  ]

  commit-Serves :
      (request : Request) (g : Globals) (s : S) (rest : List ℕ)
      → inbox s ≡ rest
      → Serves (handle_commit board (suc patience) rounds g) (serve request card_commit g) g s rest
  unfolding handle_commit
  commit-Serves request g s rest same = elim (Bool-cases (ltb 0 g.write_pending)) [
    | inl more ↦ rw (more, handle_commit) (pure-Does inbox outbox (false, g) s rest same)
    | inr all ↦ rw (all, handle_commit) (reply-Does ok_answer g s rest same)
  ]

  pub dispatch-serve :
      (request : Request) (kind : ReqType) (g : Globals) (s : S) (rest : List ℕ)
      → inbox s ≡ rest
      → Serves (dispatch board (suc patience) rounds request kind g) (serve request kind g) g s rest
  unfolding dispatch
  dispatch-serve request invalid g s rest same = pure-Does inbox outbox (false, g) s rest same
  dispatch-serve request card_status g s rest same = status-Serves request g s rest same
  dispatch-serve request card_send g s rest same = send-Serves request g s rest same
  dispatch-serve request card_commit g s rest same = commit-Serves request g s rest same
  dispatch-serve request card_read g s rest same = reply-Does card_eod g s rest same
  dispatch-serve request card_read_complete g s rest same = reply-Does ok_answer g s rest same
  dispatch-serve request resync_complete g s rest same =
      pure-Does inbox outbox (false, g) s rest same
  dispatch-serve request resync g s rest same = pure-Does inbox outbox (false, g) s rest same
