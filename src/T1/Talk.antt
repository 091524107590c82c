-- ===== src/T1/Talk.antt =====
-- What a card that keeps to T=1 sends, as the driver of the reader hands it to proto-t1.c. A talk is
-- one command and its answer: the blocks of the host and the blocks of the card in turns.
use open_pgpcard_emu.Base.{
  ℕ, suc, ◌+◌, ◌-◌, ◌*◌, ◌%◌, ◌≤◌, ◌<◌, ◌≡◌, ◌≢◌, Bool, true, false, List, [], ◌∷◌, ◌++◌,
  if◌then◌else◌, length, take, drop, pos, bit_and,
}
use open_pgpcard_emu.T1.Block.{
  T1, rc_bytes, checksum, BlockType, block_type, seq, more_blocks, s_response,
}
use open_pgpcard_emu.T1.Channel.{Driver, send_command, recv_response}
use open_pgpcard_emu.T1.Frames.{frame, block_body}

-- The protocol bytes of the host's blocks: an I-block, the R-block that asks for the next block, and
-- the S-block that grants more time.
abbrev pub sent_i : ℕ → Bool → ℕ
sent_i ns more = 64 * ns + (if more then 0x20 else 0)

abbrev pub sent_r : ℕ → ℕ
sent_r nr = 0x80 + 16 * nr

abbrev pub sent_wtx : ℕ
sent_wtx = 0xE3

-- What the standard says of the protocol bytes of the card's blocks.
abbrev pub IsLast : ℕ → ℕ → Type 0
IsLast nr pcb = (block_type pcb ≡ BlockType.i) × (seq pcb ≡ nr) × (bit_and pcb more_blocks ≡ 0)

abbrev pub IsChained : ℕ → ℕ → Type 0
IsChained nr pcb = (block_type pcb ≡ BlockType.i) × (seq pcb ≡ nr) × (bit_and pcb more_blocks ≢ 0)

abbrev pub IsNext : ℕ → ℕ → Type 0
IsNext ns pcb = (block_type pcb ≡ BlockType.r) × (seq pcb ≡ ns) × (bit_and pcb 0x0F ≡ 0)

abbrev pub IsWtx : ℕ → Type 0
IsWtx pcb = (block_type pcb ≡ BlockType.s) × (bit_and pcb s_response ≡ 0) × (bit_and pcb 0x0F ≡ 3)

-- The sizes of the information fields are such that a block fits the block buffer.
pub record IsFit (t : T1) : Type 0 where
  pub some_ifsc : 0 < t.ifsc
  pub ifsc : t.ifsc ≤ 254
  pub ifsd : t.ifsd ≤ 253

module _ {S : Type 0} (drv : Driver S) (t : T1) where
  -- `recv` of `n` bytes stores these, however long it may wait.
  abbrev pub Stores : S → ℕ → List ℕ → S → Type 0
  Stores s n bytes s' =
      (timeout : ℕ) → recv_response drv s n timeout ≡ (pos (length bytes), bytes, s')

  -- A block comes in one piece from a reader that frames blocks, in two from a serial line.
  abbrev pub Comes : Bool → S → ℕ → ℕ → List ℕ → S → Type 0
  Comes true s nad pcb bytes s' =
      (n : ℕ) → length (frame t.csum nad pcb bytes) ≤ n → Stores s n (frame t.csum nad pcb bytes) s'
  Comes false s nad pcb bytes s' =
      (s₁ : S) × Stores s 3 (nad ∷ pcb ∷ length bytes ∷ []) s₁
      × Stores s₁ (length bytes + rc_bytes t.csum)
          (bytes ++ checksum t.csum (block_body nad pcb bytes)) s'

  -- The host sends `request`, and a block comes.
  abbrev pub Exchanges : S → List ℕ → ℕ → ℕ → List ℕ → S → Type 0
  Exchanges s request nad pcb bytes s' =
      (length bytes ≤ t.ifsd)
      × (k : ℕ) × (s₁ : S) × (send_command drv s request ≡ (pos k, s₁))
      × Comes t.block_oriented s₁ nad pcb bytes s'

  -- The card gives its answer in I-blocks, the host asks for each block but the first. Before a block
  -- the card may ask for more time. `dad` is the address that the host puts before its blocks.
  pub data Gives (dad : ℕ) : List ℕ → S → ℕ → List ℕ → S → ℕ → Type 0 where
    last :
        {request : List ℕ} {s : S} {nr : ℕ} {bytes : List ℕ} {s' : S} (nad pcb : ℕ)
        → IsLast nr pcb
        → Exchanges s request nad pcb bytes s'
        → Gives dad request s nr bytes s' (1 - nr)
    more :
        {request : List ℕ} {s : S} {nr : ℕ} {s' : S} {nr' : ℕ} (nad pcb : ℕ) (bytes : List ℕ)
        {rest : List ℕ} (s₁ : S)
        → IsChained nr pcb
        → Exchanges s request nad pcb bytes s₁
        → Gives dad (frame t.csum (dad % 256) (sent_r (1 - nr)) []) s₁ (1 - nr) rest s' nr'
        → Gives dad request s nr (bytes ++ rest) s' nr'
    wait :
        {request : List ℕ} {s : S} {nr : ℕ} {answer : List ℕ} {s' : S} {nr' : ℕ} (nad pcb info : ℕ)
        (s₁ : S)
        → IsWtx pcb
        → Exchanges s request nad pcb (info ∷ []) s₁
        → Gives dad (frame t.csum (dad % 256) sent_wtx (info ∷ [])) s₁ nr answer s' nr'
        → Gives dad request s nr answer s' nr'

  -- The card takes the command in I-blocks of at most `ifsc` bytes with the numbers 0 and 1 in turns,
  -- and asks for the next after each but the last.
  pub data Takes (dad : ℕ) : S → ℕ → ℕ → List ℕ → List ℕ → S → ℕ → ℕ → Type 0 where
    whole :
        {s : S} {ns nr : ℕ} {command answer : List ℕ} {s' : S} {nr' : ℕ}
        → length command ≤ t.ifsc
        → Gives dad (frame t.csum (dad % 256) (sent_i ns false) command) s nr answer s' nr'
        → Takes dad s ns nr command answer s' (1 - ns) nr'
    part :
        {s : S} {ns nr : ℕ} {command answer : List ℕ} {s' : S} {ns' nr' : ℕ} (nad pcb : ℕ) (s₁ : S)
        → t.ifsc < length command
        → IsNext (1 - ns) pcb
        → Exchanges s
            (frame t.csum (dad % 256) (sent_i ns true) (take t.ifsc command))
            nad
            pcb
            []
            s₁
        → Takes dad s₁ (1 - ns) nr (drop t.ifsc command) answer s' ns' nr'
        → Takes dad s ns nr command answer s' ns' nr'

  -- The rounds of the loop: one for each block of the card.
  unfoldable pub gives_rounds :
      {dad : ℕ} {request : List ℕ} {s : S} {nr : ℕ} {answer : List ℕ} {s' : S} {nr' : ℕ}
      → Gives dad request s nr answer s' nr'
      → ℕ
  gives_rounds (last _ _ _ _) = 1
  gives_rounds (more _ _ _ _ _ _ g) = suc (gives_rounds g)
  gives_rounds (wait _ _ _ _ _ _ g) = suc (gives_rounds g)

  unfoldable pub takes_rounds :
      {dad : ℕ} {s : S} {ns nr : ℕ} {command answer : List ℕ} {s' : S} {ns' nr' : ℕ}
      → Takes dad s ns nr command answer s' ns' nr'
      → ℕ
  unfolding gives_rounds
  takes_rounds (whole _ g) = gives_rounds g
  takes_rounds (part _ _ _ _ _ _ g) = suc (takes_rounds g)
