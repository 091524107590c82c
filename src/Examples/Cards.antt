-- ===== src/Examples/Cards.antt =====
-- Commands and their answers over T=1 and T=0, with a card that plays its part from a script.
use open_pgpcard_emu.Base.{
  ℕ, ◌≤◌, ◌≡◌, refl, false, List, [], ◌∷◌, ◌++◌, arith, pos, some, length, take, drop, replicate,
}
use open_pgpcard_emu.T1.Block.{T1, receiving, lrc, checksum, block_type, seq}
use open_pgpcard_emu.T1.Channel.{Driver, send_command, recv_response}
use open_pgpcard_emu.T1.Frames.{frame, block_body}
use open_pgpcard_emu.T1.Talk.{
  IsLast, IsChained, IsNext, IsWtx, Exchanges, last, more, wait, Takes, whole, part, takes_rounds,
}
use open_pgpcard_emu.T1.Delivers.{IsOpen, transceive-delivers}
use open_pgpcard_emu.T1.Transceive.{transceive, answered}
use open_pgpcard_emu.T0.State.{T0, idle}
use open_pgpcard_emu.T0.Transceive as T0
use open_pgpcard_emu.T0.Transceive.{overflow}
use open_pgpcard_emu.T0.Ends.{IsEnded}
use open_pgpcard_emu.T0.Total.{transceive-IsEnded}
use open_pgpcard_emu.T0.Rounds.{Waits, busy, ready}
use open_pgpcard_emu.T0.Reads.{transceive-reads}

-- The script: what each `recv` stores.
abbrev script : Driver (List (List ℕ))
script = record {
  send = some (λ s _. (pos 0, s));
  recv = some (λ s n timeout. elim s [
    | [] ↦ (pos 0, [], [])
    | bytes ∷ rest ↦ (pos (length bytes), bytes, rest)
  ]);
}

-- A serial line, and blocks of two bytes at most to the card.
abbrev small_blocks : T1
small_blocks = record {
  phase = receiving;
  block_oriented = false;
  ns = 0;
  nr = 1;
  ifsc = 2;
  ifsd = 32;
  timeout = 20000;
  wtx = 0;
  retries = 3;
  csum = lrc;
}

small_blocks-IsOpen : IsOpen small_blocks
small_blocks-IsOpen = record {
  fit = record { some_ifsc = omega arith; ifsc = omega arith; ifsd = omega arith };
  alive = refl;
  ns = omega arith;
  nr = omega arith;
}

-- The two pieces of a block.
abbrev pieces : ℕ → List ℕ → List (List ℕ) → List (List ℕ)
pieces pcb bytes rest =
    (0 ∷ pcb ∷ length bytes ∷ []) ∷ (bytes ++ checksum lrc (block_body 0 pcb bytes)) ∷ rest

-- The next block please, more time please, a first block, and the last.
abbrev card : List (List ℕ)
card =
    pieces 0x90 []
      (pieces 0xC3 (5 ∷ []) (pieces 0x60 (0x61 ∷ 0x62 ∷ []) (pieces 0x00 (0x90 ∷ 0x00 ∷ []) [])))

exchange :
    (request : List ℕ) (pcb : ℕ) (bytes : List ℕ) (rest : List (List ℕ))
    → length bytes ≤ 32
    → Exchanges script small_blocks (pieces pcb bytes rest) request 0 pcb bytes rest
unfolding send_command recv_response
exchange request pcb bytes rest short = (
  short,
  0,
  pieces pcb bytes rest,
  refl,
  ((bytes ++ checksum lrc (block_body 0 pcb bytes)) ∷ rest, λ timeout. refl, λ timeout. refl),
)

byte_90-IsNext : IsNext 1 0x90
unfolding block_type seq
byte_90-IsNext = (refl, refl, refl)

byte_c3-IsWtx : IsWtx 0xC3
unfolding block_type
byte_c3-IsWtx = (refl, refl, refl)

byte_60-IsChained : IsChained 1 0x60
unfolding block_type seq
byte_60-IsChained = (refl, refl, omega arith)

byte_00-IsLast : IsLast 0 0x00
unfolding block_type seq
byte_00-IsLast = (refl, refl, refl)

abbrev command : List ℕ
command = 0xA4 ∷ 0x04 ∷ 0x00 ∷ []

abbrev answer : List ℕ
answer = 0x61 ∷ 0x62 ∷ 0x90 ∷ 0x00 ∷ []

abbrev after_first : List (List ℕ)
after_first = pieces 0x00 (0x90 ∷ 0x00 ∷ []) []

abbrev after_wtx : List (List ℕ)
after_wtx = pieces 0x60 (0x61 ∷ 0x62 ∷ []) after_first

abbrev after_next : List (List ℕ)
after_next = pieces 0xC3 (5 ∷ []) after_wtx

talk : Takes script small_blocks 0 card 0 1 command answer [] 0 1
talk =
    part 0 0x90 after_next (omega arith) byte_90-IsNext
      (exchange (frame lrc 0 0x20 (0xA4 ∷ 0x04 ∷ [])) 0x90 [] after_next (omega arith))
      (whole (omega arith) (
        wait 0 0xC3 5 after_wtx byte_c3-IsWtx
          (exchange (frame lrc 0 0x40 (0x00 ∷ [])) 0xC3 (5 ∷ []) after_wtx (omega arith))
          (more 0 0x60 (0x61 ∷ 0x62 ∷ []) after_first byte_60-IsChained
            (exchange (frame lrc 0 0xE3 (5 ∷ [])) 0x60 (0x61 ∷ 0x62 ∷ []) after_first (omega arith))
            (last 0 0x00 byte_00-IsLast
              (exchange (frame lrc 0 0x80 []) 0x00 (0x90 ∷ 0x00 ∷ []) [] (omega arith))))))

transceive-delivers_example :
    (mem : List ℕ) × (transceive script
        (takes_rounds script small_blocks talk)
        small_blocks
        0
        command
        (replicate 16 0)
        (replicate 259 0)
        card
      ≡ (
        answered (pos 4) mem,
        record small_blocks { phase = receiving; ns = 0; nr = 1; wtx = 0 },
        [],
      ))
    × (take 4 mem ≡ answer)
transceive-delivers_example =
    transceive-delivers script small_blocks 0 command (replicate 16 0) (replicate 259 0) answer card
      [] 0 1 small_blocks-IsOpen refl (omega arith) (omega arith) (omega arith) (omega arith)
      (omega arith) talk

abbrev bytewise : T0
bytewise = record { phase = idle; timeout = 2000; block_oriented = 0; max_nulls = 800 }

-- READ BINARY of three bytes.
abbrev read_binary : List ℕ
read_binary = 0x00 ∷ 0xB0 ∷ 0x00 ∷ 0x00 ∷ 0x03 ∷ []

-- A null byte, the procedure byte, and the answer with its status.
abbrev busy_card : List (List ℕ)
busy_card = (0x60 ∷ []) ∷ (0xB0 ∷ []) ∷ (7 ∷ 8 ∷ 9 ∷ 0x90 ∷ 0x00 ∷ []) ∷ []

transceive-IsEnded_example :
    IsEnded (T0.transceive script 1100 bytewise 0 read_binary (replicate 16 0) busy_card).0
transceive-IsEnded_example =
    transceive-IsEnded script 1100 bytewise 0 read_binary (replicate 16 0) busy_card
      (omega arith, (omega arith, (omega arith, (omega arith, (omega arith, tt))))) (omega arith)
      (omega arith) (omega arith) (omega arith)

sent_example : send_command script busy_card read_binary ≡ (pos 0, busy_card)
unfolding send_command
sent_example = refl

waits_example : Waits script 2000 busy_card 1 (drop 1 busy_card)
unfolding recv_response
waits_example = busy (drop 1 busy_card) refl ready

ack_example : recv_response script (drop 1 busy_card) 1 2000 ≡ (pos 1, 0xB0 ∷ [], drop 2 busy_card)
unfolding recv_response
ack_example = refl

answer_example :
    recv_response script (drop 2 busy_card) 5 2000 ≡ (pos 5, 7 ∷ 8 ∷ 9 ∷ 0x90 ∷ 0x00 ∷ [], [])
unfolding recv_response
answer_example = refl

-- The caller has room for two bytes only.
transceive-reads_example :
    T0.transceive script 2 bytewise 0 read_binary (0 ∷ 0 ∷ []) busy_card
    ≡ (overflow, bytewise, drop 2 busy_card)
transceive-reads_example =
    transceive-reads script bytewise refl refl 0 0 0x00 0xB0 0x00 0x00 0x03 0 5 1 (0 ∷ 0 ∷ [])
      (7 ∷ 8 ∷ 9 ∷ 0x90 ∷ 0x00 ∷ []) busy_card busy_card (drop 1 busy_card) (drop 2 busy_card) []
      (omega arith, omega arith, omega arith) (omega arith) (omega arith) (omega arith) sent_example
      waits_example (omega arith) ack_example answer_example refl
