-- ===== src/Apdu.antt =====
-- The analysis of command APDUs in OpenCTDriver/src/ifd/apdu.c.
pub mod Cases
use open_pgpcard_emu.Base.{
  ℕ, zero, suc, ◌+◌, ◌-◌, List, [], ◌∷◌, ◌==◌, ltb, if◌then◌else◌, Option, none, some, get_or, drop,
  length, ℤ, pos, negsuc,
}

-- IFD_APDU_CASE_1, _2S, _3S, _4S; no other value is ever stored.
pub data Case : Type 0 where
  case_1 case_2s case_3s case_4s : Case

unfoldable pub case_code : Case → ℕ
case_code case_1 = 0x00
case_code case_2s = 0x01
case_code case_3s = 0x02
case_code case_4s = 0x03

-- `ifd_iso_apdu_t`, less the fields that the analysis leaves zero; `body` is the memory at `data`.
pub record Iso : Type 0 where
  pub cse : Case
  pub cla : ℕ
  pub ins : ℕ
  pub p1 : ℕ
  pub p2 : ℕ
  pub lc : ℕ
  pub le : ℕ
  pub body : List ℕ
  pub len : ℕ

abbrev pub blank : Iso
blank = record {
  cse = case_1;
  cla = 0;
  ins = 0;
  p1 = 0;
  p2 = 0;
  lc = 0;
  le = 0;
  body = [];
  len = 0;
}

-- `b ? b : 256`
abbrev pub or_256 : ℕ → ℕ
or_256 b = if b == 0 then 256 else b

-- `__ifd_apdu_check`; `none` is -1.
unfoldable pub apdu_check : List ℕ → Option Iso
apdu_check buf =
    if ltb (length buf) 5
    then some blank
    else let b = get_or buf 4 0 in
      let len = length buf - 5 in
      if len == 0
      then some (record blank { cse = case_2s; le = or_256 b })
      else let lc = or_256 b in
        let rest = drop 5 buf in
        let iso = record blank { lc = lc; len = len; body = rest } in
        if len == lc
        then some (record iso { cse = case_3s })
        else if len == lc + 1
        then some (record iso { cse = case_4s; le = or_256 (get_or rest lc 0); len = len - 1 })
        else none

unfoldable pub apdu_case : List ℕ → ℤ
unfolding case_code
apdu_case buf = elim (apdu_check buf) [ none ↦ negsuc 0 | some iso ↦ pos (case_code iso.cse) ]

unfoldable pub iso_apdu_parse : List ℕ → Option Iso
iso_apdu_parse buf = if ltb (length buf) 4 then none else elim (apdu_check buf) [
  | none ↦ none
  | some iso ↦ some (record iso {
    cla = get_or buf 0 0;
    ins = get_or buf 1 0;
    p1 = get_or buf 2 0;
    p2 = get_or buf 3 0;
  })
]
