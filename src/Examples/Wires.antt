-- ===== src/Examples/Wires.antt =====
-- A wire of two queues, for the firmware of ArduinoCardEmu/ and the driver of
-- OpenCTDriver/src/ifd/ifd-cardemu.c to talk over.
use open_pgpcard_emu.Base.{
  ℕ, ◌+◌, ◌-◌, ◌*◌, ◌%◌, ◌^◌, ◌≤◌, ◌<◌, ◌≡◌, ◌≢◌, refl, List, [], ◌∷◌, ◌++◌, Option, none, some,
  arith, ltb, if◌then◌else◌, length, length-take, take, drop, min, ◌∙◌,
}
use open_pgpcard_emu.Cardemu.Session.{Host}
use open_pgpcard_emu.Firmware.Board.{Board}
use open_pgpcard_emu.Firmware.Timeouts.{IsTimed}
use open_pgpcard_emu.Firmware.Wire.{IsWired}
use open_pgpcard_emu.Together.Link.{IsLinked}
use open_pgpcard_emu.Together.World.{
  HostEnd, IsJoined, World, world_host, world_host-IsLinked, Waits,
}
use open_pgpcard_emu.Examples.Devices.{blank_stack}

pub record Wire : Type 0 where
  pub inbox : List ℕ
  pub outbox : List ℕ
  pub clock : ℕ

-- A read of more bytes than are there takes half a second.
abbrev pub read_wire : ℕ → Wire → List ℕ × Wire
read_wire n s = (
  take n s.inbox,
  record s {
    inbox = drop n s.inbox;
    clock = if ltb (length s.inbox) n then s.clock + 500 else s.clock;
  },
)

abbrev pub wire_board : Board Wire
wire_board = record {
  available = λ s. (length s.inbox, s);
  read_bytes = read_wire;
  write = λ b s. (1, record s { outbox = s.outbox ++ b ∷ [] });
  millis = λ s. (s.clock % 2 ^ 32, s);
  stack = blank_stack;
}

length-ne-zero : (xs : List ℕ) → xs ≢ [] → length xs ≢ 0
length-ne-zero [] h = absurd (h refl)
length-ne-zero (x ∷ xs) h = omega arith

in_time :
    (n len c : ℕ)
    → n ≤ len
    → ((if ltb len n then c + 500 else c) % 2 ^ 32 + 2 ^ 32 - c % 2 ^ 32) % 2 ^ 32 ≤ 500
in_time n len c h = ground arith

pub wire_board-IsWired : IsWired wire_board Wire.inbox Wire.outbox
wire_board-IsWired = record {
  waits = λ s some_byte. (length-ne-zero s.inbox some_byte, refl, refl);
  reads = λ n s fits. (refl, refl, refl);
  writes = λ b s. ((λ e. omega arith), refl, refl);
  ticks = λ s. (refl, refl);
  prompt = λ n s fits. in_time n (length s.inbox) s.clock fits;
}

late : (n len c : ℕ) → min n len < n → c + 500 ≤ (if ltb len n then c + 500 else c)
late n len c h = ground arith

forward : (n len c : ℕ) → c ≤ (if ltb len n then c + 500 else c)
forward n len c = ground arith

soon : (n len c : ℕ) → (if ltb len n then c + 500 else c) ≤ c + n * 1000
soon n len c = ground arith

pub wire_board-IsTimed : IsTimed wire_board Wire.clock
wire_board-IsTimed = record {
  shows = λ s. refl;
  stands = λ s. refl;
  at_most = λ n s. omega (arith, length-take n s.inbox);
  late = λ n s short. late n (length s.inbox) s.clock (omega (arith, length-take n s.inbox));
  forward = λ n s. forward n (length s.inbox) s.clock;
  soon = λ n s. soon n (length s.inbox) s.clock;
}

abbrev pub take_byte : Wire → List ℕ → Option ℕ × Wire
take_byte s [] = (none, s)
take_byte s (b ∷ rest) = (some b, record s { outbox = rest })

abbrev pub wire_end : HostEnd Wire
wire_end = record {
  deliver = λ bytes s. record s { inbox = s.inbox ++ bytes };
  collect = λ s. take_byte s s.outbox;
  random = λ s. (s.clock, s);
}

collects :
    (b : ℕ) (rest out : List ℕ) (s : Wire)
    → out ≡ b ∷ rest
    → ((take_byte s out).0 ≡ some b)
      × ((take_byte s out).1.inbox ≡ s.inbox)
      × ((take_byte s out).1.outbox ≡ rest)
collects b rest out s e = rw e (refl, refl, refl)

nothing :
    (out : List ℕ) (s : Wire)
    → out ≡ []
    → s.outbox ≡ out
    → ((take_byte s out).0 ≡ none)
      × ((take_byte s out).1.inbox ≡ s.inbox)
      × ((take_byte s out).1.outbox ≡ [])
nothing out s e same = rw e (refl, refl, same ∙ e)

pub wire_end-IsJoined : IsJoined wire_end Wire.inbox Wire.outbox
wire_end-IsJoined = record {
  delivers = λ bytes s. (refl, refl);
  collects = λ b rest s e. collects b rest s.outbox s e;
  nothing = λ s e. nothing s.outbox s e refl;
  apart = λ s. (refl, refl);
}

-- The driver on this wire.
abbrev pub wire_host : Host (World Wire)
wire_host = world_host wire_board wire_end 1 2 blank_stack

abbrev pub wire_line : World Wire → List ℕ
wire_line w = w.wire.outbox

pub wire_host-IsLinked : IsLinked wire_host World.firmware wire_line (Waits Wire.inbox)
wire_host-IsLinked =
    world_host-IsLinked wire_board wire_end 0 0 Wire.inbox Wire.outbox wire_board-IsWired
      wire_end-IsJoined refl blank_stack
