-- ===== src/Together/Commands.antt =====
-- One try of a command of OpenCTDriver/src/ifd/ifd-cardemu.c, over a line with the firmware at the
-- other end.
use open_pgpcard_emu.Base.{
  ℕ, suc, ◌+◌, ◌≤◌, ◌≡◌, ◌∙◌, sym, ap, subst, true, false, List, [], ◌++◌, arith, ◌==◌, drop,
  length,
}
use open_pgpcard_emu.Base.Run.{err, Result, Run, ok, require, lift, ◌>>=◌, ◌>>◌}
use open_pgpcard_emu.Base.Slice.{slice}
use open_pgpcard_emu.Frame.{inside, get_ans_mask}
use open_pgpcard_emu.Cardemu.Session.{Host, Session, Failure, send_message, recv_message, outer}
use open_pgpcard_emu.Cardemu.Resync.{resync}
use open_pgpcard_emu.Cardemu.Retry.{after_resync, done, retry, after_try, request, receive, answer}
use open_pgpcard_emu.Firmware.Answer.{answer_frame}
use open_pgpcard_emu.Firmware.Comm.{ReqType, req_code, AnsType, ans_code}
use open_pgpcard_emu.Firmware.React.{Node, Answer, bare, react, frames}
use open_pgpcard_emu.Firmware.Receive.{IsRequest, request_of}
use open_pgpcard_emu.Together.Link.{IsLinked}
use open_pgpcard_emu.Together.Exchange.{Meets, IsAnswer, send_message-linked}
use open_pgpcard_emu.Together.Steps.{
  Comes, bind-Comes, Yields, bind-Yields, require-Yields, get_ans_mask-answer, recv_message-Yields,
}

module _ {S : Type 0} (host : Host S) (node : S → Node) (line : S → List ℕ) (IsIdle : S → Type 0)
    (linked : IsLinked host node line IsIdle) where
  pub request-Yields :
      (e : Failure) (kind : ReqType) (pl_len : ℕ) (payload : List ℕ) (n n' : Node)
      (answers : List Answer) (bytes : List ℕ) (s : Session S)
      → Meets host node line IsIdle linked s n bytes
      → pl_len ≤ 14
      → slice 1 pl_len s.buff ≡ payload
      → IsRequest kind payload
      → react n (request_of kind payload) ≡ (answers, n')
      → Yields
          (request host e (req_code kind) pl_len)
          s
          tt
          (λ t. Meets host node line IsIdle linked t n' (bytes ++ frames answers))
  unfolding request
  request-Yields e kind pl_len payload n n' answers bytes s here short same allowed reacts =
      let (sent, there, _) =
        send_message-linked host node line IsIdle linked kind pl_len n bytes s here short
          (subst (IsRequest kind) (sym same) allowed) in
      let t = (send_message host (req_code kind) (inside 1) pl_len s).1 in
      require-Yields _ e t (λ u. Meets host node line IsIdle linked u n' (bytes ++ frames answers))
        (rw sent (ground arith))
        (subst
          (λ (r : List Answer × Node).
            Meets host node line IsIdle linked t r.1 (bytes ++ frames r.0))
          (ap (λ p. react n (request_of kind p)) same ∙ reacts) there)

  pub receive-Yields :
      (e : Failure) (timeout : ℕ) (ans : AnsType) (payload rest : List ℕ) (n : Node) (s : Session S)
      → Meets host node line IsIdle linked s n (answer_frame ans payload ++ rest)
      → IsAnswer host node line IsIdle linked ans payload
      → Yields (receive host e timeout) s tt (λ t.
        Meets host node line IsIdle linked t n rest
        × (t.buff ≡ answer_frame ans payload ++ drop (length payload + 2) s.buff))
  unfolding receive
  receive-Yields e timeout ans payload rest n s here allowed =
      bind-Yields (lift (recv_message host timeout))
        (λ (k : ℕ). require (elim (k == 0) [ true ↦ false | false ↦ true ]) e) s
        (length payload + 2) tt Got Got
        (recv_message-Yields host node line IsIdle linked timeout ans payload rest n s here allowed)
        (λ t got. require-Yields _ e t Got (ground arith) got)
    where
      Got : Session S → Type 0
      Got t =
          Meets host node line IsIdle linked t n rest
          × (t.buff ≡ answer_frame ans payload ++ drop (length payload + 2) s.buff)

  pub answer-Yields :
      (ans : AnsType) (payload rest : List ℕ) (s : Session S) (P : Session S → Type 0)
      → length payload ≤ 14
      → s.buff ≡ answer_frame ans payload ++ rest
      → P s
      → Yields (answer host) s (ans_code ans) P
  unfolding answer
  answer-Yields ans payload rest s P short e here =
      (ap ok (ap (λ b. get_ans_mask b) e ∙ get_ans_mask-answer ans payload rest short), here)

  -- A bare answer, and what is done with its kind.
  pub reply-Comes :
      {B : Type 0} (e : Failure) (timeout : ℕ) (ans : AnsType) (n : Node) (s : Session S)
      (k : ℕ → Run (Session S) Failure B) (r : Result Failure B) (P : Session S → Type 0)
      → Meets host node line IsIdle linked s n (frames (bare ans))
      → IsAnswer host node line IsIdle linked ans []
      → ((t : Session S)
          → Meets host node line IsIdle linked t n []
          → Comes (k (ans_code ans)) t r P)
      → Comes (receive host e timeout >> (answer host >>= k)) s r P
  reply-Comes e timeout ans n s k r P here allowed next =
      bind-Comes (receive host e timeout) (λ _. answer host >>= k) s tt r
        (λ t.
          Meets host node line IsIdle linked t n []
          × (t.buff ≡ answer_frame ans [] ++ drop 2 s.buff))
        P (receive-Yields e timeout ans [] [] n s here allowed)
        (λ t (there, same).
          bind-Comes (answer host) k t (ans_code ans) r
            (λ u. Meets host node line IsIdle linked u n []) P
            (answer-Yields ans [] (drop 2 s.buff) t (λ u. Meets host node line IsIdle linked u n [])
              (omega arith) same there)
            next)

  -- A try that stops, and a resynchronisation that succeeds, are followed by the next try.
  pub retry-again :
      {A : Type 0} (n : ℕ) (body : Run (Session S) Failure A) (s : Session S)
      → (body s).0 ≡ err outer
      → (resync host (body s).1.port).0 ≡ true
      → retry host (suc n) body s
        ≡ retry host n body (record (body s).1 { port = (resync host (body s).1.port).1 })
  unfolding retry after_try after_resync
  retry-again n body s e synced =
      ap (λ r. after_try host r (body s).1 (λ t. retry host n body t)) e
      ∙ ap
          (λ b.
            after_resync host b outer (record (body s).1 { port = (resync host (body s).1.port).1 })
              (λ t. retry host n body t))
          synced

  -- A first try that ends well ends the loop.
  pub retry-done :
      {A : Type 0} (n : ℕ) (body : Run (Session S) Failure A) (s : Session S) (a : A)
      → (body s).0 ≡ ok a
      → retry host (suc n) body s ≡ (done a, (body s).1)
  unfolding retry after_try
  retry-done n body s a e = ap (λ r. after_try host r (body s).1 (λ t. retry host n body t)) e
