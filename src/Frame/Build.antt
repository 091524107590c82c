-- ===== src/Frame/Build.antt =====
-- `comm_message` and `comm_verify` against a message as a list.
use open_pgpcard_emu.Base.{
  ℕ, suc, ◌+◌, ◌≤◌, ◌<◌, ◌≡◌, ◌≢◌, refl, ◌∙◌, sym, ap, ap₂, List, [], ◌∷◌, ◌++◌, arith, true, false,
  ltb, ◌==◌, ==_refl, ne→==_false, get_or, set, take, length, length-set, take-append,
  get_or-set_self, bit_or, Bool-cases, inl, inr,
}
use open_pgpcard_emu.Base.Slice.{slice, slice-zero, slice-snoc, slice-set_ne}
use open_pgpcard_emu.Crc8.{crc8}
use open_pgpcard_emu.Frame.{Payload, place_payload, message, verify}
use open_pgpcard_emu.Frame.Move.{payload_bytes, length-place_payload, place_payload-moves}

-- A message: a header, a payload and the CRC of both.
abbrev pub frame : ℕ → List ℕ → List ℕ
frame header payload = header ∷ payload ++ crc8 (header ∷ payload) ∷ []

-- The header of a message of this kind with `n` bytes of payload.
abbrev pub header_of : ℕ → ℕ → ℕ
header_of mask n = bit_or mask (n + 1)

slice-cons : (n : ℕ) (xs : List ℕ) → slice 0 (suc n) xs ≡ get_or xs 0 0 ∷ slice 1 n xs
unfolding slice
slice-cons n xs = refl

-- The buffer after the header was written.
headed-slice :
    (mask : ℕ) (p : Payload) (n : ℕ) (buff : List ℕ)
    → 1 + n ≤ length buff
    → slice 0 (suc n) (set (place_payload p n buff) 0 (header_of mask n))
      ≡ header_of mask n ∷ payload_bytes p n buff
headed-slice mask p n buff fits =
    slice-cons n (set placed 0 (header_of mask n))
    ∙ ap₂ ◌∷◌
        (get_or-set_self placed 0 (header_of mask n) 0
          (omega (arith, length-place_payload p n buff)))
        (slice-set_ne 1 n 0 (header_of mask n) placed (λ k lt. omega arith)
          ∙ place_payload-moves p n buff fits)
  where
    placed : List ℕ
    placed = place_payload p n buff

-- Setting the byte behind a slice appends it.
slice-set_end :
    (n v : ℕ) (xs : List ℕ) → n < length xs → slice 0 (suc n) (set xs n v) ≡ slice 0 n xs ++ v ∷ []
slice-set_end n v xs fits =
    slice-snoc 0 n (set xs n v)
    ∙ ap₂ (λ (a : List ℕ) (b : ℕ). a ++ b ∷ []) (slice-set_ne 0 n n v xs (λ k lt. omega arith))
        (ap (λ k. get_or (set xs n v) k 0) (omega arith) ∙ get_or-set_self xs n v 0 fits)

-- `comm_message` of a payload of at most 14 bytes into a buffer with room for the message puts there
-- the header, the bytes that the payload held before, and their CRC, and returns the length of the
-- message, whether the payload lies in the buffer, starts before it and runs into it, or lies
-- elsewhere.
pub message-frame :
    (mask : ℕ) (p : Payload) (n : ℕ) (buff : List ℕ)
    → n ≤ 14
    → n + 2 ≤ length buff
    → ((message mask p n buff).0 ≡ n + 2)
      × (take (n + 2) (message mask p n buff).1 ≡ frame (header_of mask n) (payload_bytes p n buff))
      × (length (message mask p n buff).1 ≡ length buff)
unfolding message
message-frame mask p n buff short fits = rw fits_test (
  omega arith,
  sym (slice-zero (n + 2) result (omega (arith, length-result)))
      ∙ ap (λ k. slice 0 k result) (omega arith)
      ∙ slice-set_end (n + 1) (crc8 (take (n + 1) headed)) headed (omega (arith, length-headed))
      ∙ ap (λ (xs : List ℕ). xs ++ crc8 (take (n + 1) headed) ∷ []) contents
      ∙ ap (λ (xs : List ℕ). (header_of mask n ∷ payload_bytes p n buff) ++ crc8 xs ∷ [])
          (sym (slice-zero (n + 1) headed (omega (arith, length-headed))) ∙ contents),
  length-result,
)
  where
    fits_test : ltb 14 n ≡ false
    fits_test = ground arith

    headed : List ℕ
    headed = set (place_payload p n buff) 0 (header_of mask n)

    length-headed : length headed ≡ length buff
    length-headed =
        length-set (place_payload p n buff) 0 (header_of mask n) ∙ length-place_payload p n buff

    contents : slice 0 (n + 1) headed ≡ header_of mask n ∷ payload_bytes p n buff
    contents = ap (λ k. slice 0 k headed) (omega arith) ∙ headed-slice mask p n buff (omega arith)

    result : List ℕ
    result = set headed (n + 1) (crc8 (take (n + 1) headed))

    length-result : length result ≡ length buff
    length-result = length-set headed (n + 1) (crc8 (take (n + 1) headed)) ∙ length-headed

-- `comm_message` refuses a payload of more than 14 bytes and leaves the buffer alone.
pub message-refuses :
    (mask : ℕ) (p : Payload) (n : ℕ) (buff : List ℕ) → 14 < n → message mask p n buff ≡ (0, buff)
unfolding message
message-refuses mask p n buff long = ground arith

pub get_or-append : (xs : List ℕ) (y : ℕ) (ys : List ℕ) → get_or (xs ++ y ∷ ys) (length xs) 0 ≡ y
get_or-append [] y ys = refl
get_or-append (x ∷ xs) y ys = get_or-append xs y ys

-- `comm_verify` accepts bytes that end in their CRC, whatever stands behind them in the buffer.
pub verify-frame :
    (bytes rest : List ℕ)
    → 1 ≤ length bytes
    → verify (bytes ++ crc8 bytes ∷ rest) (length bytes + 1) ≡ true
unfolding verify
verify-frame bytes rest some_byte = rw long_enough (
    ap₂ ◌==◌
      (ap (λ k. get_or (bytes ++ crc8 bytes ∷ rest) k 0) (omega arith)
        ∙ get_or-append bytes (crc8 bytes) rest)
      (ap crc8 (
        ap (λ k. take k (bytes ++ crc8 bytes ∷ rest)) (omega arith)
        ∙ take-append bytes (crc8 bytes ∷ rest)))
    ∙ ==_refl (crc8 bytes))
  where
    long_enough : ltb (length bytes + 1) 2 ≡ false
    long_enough = ground arith

-- `comm_verify` accepts a CRC byte only if it is the CRC of the bytes before it.
pub verify-exact :
    (bytes rest : List ℕ) (c : ℕ)
    → c ≢ crc8 bytes
    → verify (bytes ++ c ∷ rest) (length bytes + 1) ≡ false
unfolding verify
verify-exact bytes rest c ne = elim (Bool-cases (ltb (length bytes + 1) 2)) [
  | inl short ↦ rw short
  | inr long ↦ rw long (
      ap₂ ◌==◌ (ap (λ k. get_or (bytes ++ c ∷ rest) k 0) (omega arith) ∙ get_or-append bytes c rest)
        (ap crc8
          (ap (λ k. take k (bytes ++ c ∷ rest)) (omega arith) ∙ take-append bytes (c ∷ rest)))
      ∙ ne→==_false c (crc8 bytes) ne)
]
