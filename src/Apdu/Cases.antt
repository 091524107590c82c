-- ===== src/Apdu/Cases.antt =====
-- The cases of ISO 7816-4: what OpenCTDriver/src/ifd/apdu.c makes of a command in each.
use open_pgpcard_emu.Base.{
  ℕ, ◌%◌, ◌≤◌, ◌≡◌, refl, List, [], ◌∷◌, ◌++◌, arith, Option, none, some, length, length-append,
}
use open_pgpcard_emu.Frame.Build.{get_or-append}
use open_pgpcard_emu.Apdu.{
  case_2s, case_3s, case_4s, Iso, blank, or_256, apdu_check, iso_apdu_parse,
}

-- A command as the standard describes it: the header, the data, and the expected length.
abbrev pub encode : ℕ → ℕ → ℕ → ℕ → List ℕ → Option ℕ → List ℕ
encode cla ins p1 p2 [] none = cla ∷ ins ∷ p1 ∷ p2 ∷ []
encode cla ins p1 p2 [] (some le) = cla ∷ ins ∷ p1 ∷ p2 ∷ le % 256 ∷ []
encode cla ins p1 p2 (d ∷ ds) none = cla ∷ ins ∷ p1 ∷ p2 ∷ length (d ∷ ds) % 256 ∷ d ∷ ds
encode cla ins p1 p2 (d ∷ ds) (some le) =
    cla ∷ ins ∷ p1 ∷ p2 ∷ length (d ∷ ds) % 256 ∷ d ∷ ds ++ le % 256 ∷ []

-- What the analysis has to find in it. In case 4 the memory at `data` goes on with the byte of the
-- expected length, which `len` does not count.
abbrev pub expected : ℕ → ℕ → ℕ → ℕ → List ℕ → Option ℕ → Iso
expected cla ins p1 p2 [] none = record blank { cla = cla; ins = ins; p1 = p1; p2 = p2 }
expected cla ins p1 p2 [] (some le) = record blank {
  cse = case_2s;
  cla = cla;
  ins = ins;
  p1 = p1;
  p2 = p2;
  le = le;
}
expected cla ins p1 p2 (d ∷ ds) none = record blank {
  cse = case_3s;
  cla = cla;
  ins = ins;
  p1 = p1;
  p2 = p2;
  lc = length (d ∷ ds);
  len = length (d ∷ ds);
  body = d ∷ ds;
}
expected cla ins p1 p2 (d ∷ ds) (some le) = record blank {
  cse = case_4s;
  cla = cla;
  ins = ins;
  p1 = p1;
  p2 = p2;
  lc = length (d ∷ ds);
  len = length (d ∷ ds);
  le = le;
  body = d ∷ ds ++ le % 256 ∷ [];
}

-- 256 is written as 0.
or_256-mod : (n : ℕ) → 1 ≤ n → n ≤ 256 → or_256 (n % 256) ≡ n
or_256-mod n low high = ground arith

-- A bound on an expected length that is there.
abbrev pub IsExpected : Option ℕ → Type 0
IsExpected none = Unit
IsExpected (some le) = (1 ≤ le) × (le ≤ 256)

-- `ifd_iso_apdu_parse` finds in a short command of each of the four cases the header, the data and
-- the expected length that it was made of, for data of at most 256 bytes and an expected length
-- from 1 to 256.
pub iso_apdu_parse-encode :
    (cla ins p1 p2 : ℕ) (bytes : List ℕ) (le : Option ℕ)
    → length bytes ≤ 256
    → IsExpected le
    → iso_apdu_parse (encode cla ins p1 p2 bytes le) ≡ some (expected cla ins p1 p2 bytes le)
unfolding iso_apdu_parse apdu_check
iso_apdu_parse-encode cla ins p1 p2 [] none short h = refl
iso_apdu_parse-encode cla ins p1 p2 [] (some le) short (low, high) =
    rw (or_256-mod le low high) refl
iso_apdu_parse-encode cla ins p1 p2 (d ∷ ds) none short h =
    ground (arith, or_256-mod (length (d ∷ ds)) (omega arith) short)
iso_apdu_parse-encode cla ins p1 p2 (d ∷ ds) (some le) short (low, high) = ground (
  arith,
  or_256-mod (length (d ∷ ds)) (omega arith) short,
  or_256-mod le low high,
  get_or-append (d ∷ ds) (le % 256) [],
  length-append ds (le % 256 ∷ []),
)
