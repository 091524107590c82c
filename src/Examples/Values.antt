-- ===== src/Examples/Values.antt =====
-- The calculations of OpenCTDriver/src/ifd on concrete bytes.
use open_pgpcard_emu.Base.{
  ℕ, ◌-◌, ◌/◌, ◌%◌, ◌<◌, ◌≡◌, refl, true, List, [], ◌∷◌, arith, AreBytes, pos, negsuc, some, none,
  length, take,
}
use open_pgpcard_emu.Checksum.{csum_crc_compute}
use open_pgpcard_emu.Checksum.Reference.{crc_bitwise, csum_crc_compute-crc_bitwise}
use open_pgpcard_emu.Atr.{AtrInfo, atr_parse, build_pts, pts_request, verify_pts, pts_complete}
use open_pgpcard_emu.Atr.Parse.{atr_parse-default}
use open_pgpcard_emu.Protocol.Registry.{Ops}
use open_pgpcard_emu.Protocol.Select.{announced, Slot, set_up, select}
use open_pgpcard_emu.Protocol.Agrees.{select-atr_parse}
use open_pgpcard_emu.Atr.Pts.{verify-build, pts_complete-early}

abbrev header : List ℕ
header = 0x00 ∷ 0xC1 ∷ 0x01 ∷ []

csum_crc_compute-crc_bitwise_example :
    let v = crc_bitwise 0xFFFF header in csum_crc_compute header ≡ v / 256 % 256 ∷ v % 256 ∷ []
csum_crc_compute-crc_bitwise_example =
    csum_crc_compute-crc_bitwise header (omega arith, (omega arith, (omega arith, tt)))

-- An answer to reset with TA1, and TA3 and TB3 for T=1.
abbrev atr : List ℕ
atr = 0x3B ∷ 0x90 ∷ 0x11 ∷ 0x81 ∷ 0x31 ∷ 0xFE ∷ 0x45 ∷ 0x00 ∷ []

abbrev info : AtrInfo
info = record {
  supported = 2;
  default_protocol = pos 1;
  ta = pos 0x11 ∷ negsuc 0 ∷ pos 0xFE ∷ pos 0 ∷ [];
  tb = negsuc 0 ∷ negsuc 0 ∷ pos 0x45 ∷ pos 0 ∷ [];
  tc = negsuc 0 ∷ negsuc 0 ∷ negsuc 0 ∷ pos 0 ∷ [];
}

parsed : atr_parse atr ≡ some info
unfolding atr_parse
parsed = refl

atr-AreBytes : AreBytes atr
atr-AreBytes = (
  omega arith,
  (
    omega arith,
    (omega arith, (omega arith, (omega arith, (omega arith, (omega arith, (omega arith, tt)))))),
  ),
)

atr_parse-default_example : (p : ℕ) × (info.default_protocol ≡ pos p) × (p < 16)
atr_parse-default_example = atr_parse-default atr info atr-AreBytes parsed

-- A protocol that does nothing, T=1 by its number, in a reader that leaves the choice to the library.
abbrev no_ops : Ops (Unit {0}) (Unit {0}) (Unit {0})
no_ops = record {
  id = pos 1;
  name = [];
  init = none;
  set_param = none;
  get_param = none;
  resynchronize = none;
  transceive = none;
}

abbrev slot : Slot (Unit {0}) (Unit {0}) (Unit {0})
slot = record { dad = 0; atr = atr; proto = none }

select-atr_parse_example :
    (announced atr ≡ some (record { supported = 2; def_proto = pos 1 }))
    × (select (λ _. some tt) (no_ops ∷ []) tt none slot
        ≡ some (set_up (λ _. some tt) (no_ops ∷ []) tt none (pos 1) slot))
select-atr_parse_example =
    select-atr_parse (λ _. some tt) (no_ops ∷ []) tt none slot info atr-AreBytes parsed

-- The request for T=1 with the card's TA1.
abbrev pts : List ℕ
pts = 0xFF ∷ 0x11 ∷ 0x11 ∷ 0xFF ∷ []

built : build_pts info 1 8 ≡ (pos 4, pts)
unfolding build_pts pts_request
built = refl

verify-build_example : verify_pts info pts ≡ (pos 0, info)
verify-build_example = verify-build info 1 8 4 pts (omega arith) (omega arith) built

pts_complete-early_example : pts_complete (take (length pts - 1) pts) ≡ true
pts_complete-early_example = pts_complete-early info 1 8 4 pts (omega arith) (omega arith) built
