-- ===== src/Base/Write.antt =====
-- Writes at an offset, as lists and byte by byte.
use open_pgpcard_emu.Base.{
  ℕ, zero, suc, ◌+◌, ◌-◌, ◌≤◌, ◌<◌, ◌≡◌, refl, sym, ◌∙◌, ap, ap₂, List, [], ◌∷◌, ◌++◌, arith,
  get_or, length-write_at, set, take, drop, length, length-set, write_at, get_or-set_self,
  get_or-set_ne,
}
use open_pgpcard_emu.Base.Slice.{slice, slice-eq, slice-zero}

pub write_at-suc :
    (x : ℕ) (xs : List ℕ) (i : ℕ) (ys : List ℕ)
    → write_at (x ∷ xs) (suc i) ys ≡ x ∷ write_at xs i ys
write_at-suc x xs i [] = refl
write_at-suc x xs i (y ∷ ys) = write_at-suc x (set xs i y) (suc i) ys

-- At the start a write replaces a prefix.
pub write_at-zero :
    (xs ys : List ℕ) → length ys ≤ length xs → write_at xs 0 ys ≡ ys ++ drop (length ys) xs
write_at-zero xs [] h = refl
write_at-zero [] (y ∷ ys) h = absurd (omega arith)
write_at-zero (x ∷ xs) (y ∷ ys) h =
    write_at-suc y xs 0 ys ∙ ap (◌∷◌ y) (write_at-zero xs ys (omega arith))

-- A write leaves what stands before it and behind it.
pub get_or-write_at_before :
    (xs : List ℕ) (i : ℕ) (ys : List ℕ) (j : ℕ)
    → j < i
    → get_or (write_at xs i ys) j 0 ≡ get_or xs j 0
get_or-write_at_before xs i [] j h = refl
get_or-write_at_before xs i (y ∷ ys) j h =
    get_or-write_at_before (set xs i y) (suc i) ys j (omega arith)
    ∙ get_or-set_ne xs i j y 0 (omega arith)

-- What was written is read back.
pub get_or-write_at :
    (xs : List ℕ) (i : ℕ) (ys : List ℕ) (k : ℕ)
    → i + length ys ≤ length xs
    → k < length ys
    → get_or (write_at xs i ys) (i + k) 0 ≡ get_or ys k 0
get_or-write_at xs i [] k fits h = absurd (omega arith)
get_or-write_at xs i (y ∷ ys) zero fits h =
    ap (λ t. get_or (write_at (set xs i y) (suc i) ys) t 0) (omega arith)
    ∙ get_or-write_at_before (set xs i y) (suc i) ys i (omega arith)
    ∙ get_or-set_self xs i y 0 (omega arith)
get_or-write_at xs i (y ∷ ys) (suc k) fits h =
    ap (λ t. get_or (write_at (set xs i y) (suc i) ys) t 0) (omega arith)
    ∙ get_or-write_at (set xs i y) (suc i) ys k (omega (arith, length-set xs i y)) (omega arith)

-- A slice before the write stays, and one of what was written is it.
pub slice-write_at_before :
    (off n : ℕ) (xs : List ℕ) (i : ℕ) (ys : List ℕ)
    → off + n ≤ i
    → slice off n (write_at xs i ys) ≡ slice off n xs
slice-write_at_before off n xs i ys h =
    slice-eq off off n (write_at xs i ys) xs
      (λ k lt. get_or-write_at_before xs i ys (off + k) (omega arith))

pub slice-write_at :
    (xs : List ℕ) (i : ℕ) (ys : List ℕ) (n : ℕ)
    → n ≤ length ys
    → i + length ys ≤ length xs
    → slice i n (write_at xs i ys) ≡ slice 0 n ys
slice-write_at xs i ys n short fits =
    slice-eq i 0 n (write_at xs i ys) ys
      (λ k lt. get_or-write_at xs i ys k fits (omega arith) ∙ ap (λ t. get_or ys t 0) (omega arith))

-- A slice in two parts, and the prefixes and rests of a slice.
pub slice-add :
    (off m n : ℕ) (xs : List ℕ) → slice off (m + n) xs ≡ slice off m xs ++ slice (off + m) n xs
unfolding slice
slice-add off zero n xs = ap₂ (λ (o k : ℕ). slice o k xs) (omega arith) (omega arith)
slice-add off (suc m) n xs =
    ap (λ (k : ℕ). slice off k xs) {x = suc m + n} {y = suc (m + n)} (omega arith)
    ∙ ap (◌∷◌ (get_or xs off 0)) (
        slice-add (suc off) m n xs
        ∙ ap (λ (o : ℕ). slice (suc off) m xs ++ slice o n xs) {x = suc off + m} {y = off + suc m}
            (omega arith))

pub slice-whole : (ys : List ℕ) → slice 0 (length ys) ys ≡ ys
slice-whole ys = slice-zero (length ys) ys (omega arith) ∙ take-whole ys
  where
    take-whole : (zs : List ℕ) → take (length zs) zs ≡ zs
    take-whole [] = refl
    take-whole (z ∷ zs) = ap (◌∷◌ z) (take-whole zs)

pub take-slice : (off m n : ℕ) (xs : List ℕ) → m ≤ n → take m (slice off n xs) ≡ slice off m xs
unfolding slice
take-slice off zero n xs h = refl
take-slice off (suc m) zero xs h = absurd (omega arith)
take-slice off (suc m) (suc n) xs h =
    ap (◌∷◌ (get_or xs off 0)) (take-slice (suc off) m n xs (omega arith))

pub drop-slice :
    (off m n : ℕ) (xs : List ℕ) → m ≤ n → drop m (slice off n xs) ≡ slice (off + m) (n - m) xs
unfolding slice
drop-slice off zero n xs h = ap₂ (λ (o k : ℕ). slice o k xs) (omega arith) (omega arith)
drop-slice off (suc m) zero xs h = absurd (omega arith)
drop-slice off (suc m) (suc n) xs h =
    drop-slice (suc off) m n xs (omega arith)
    ∙ ap₂ (λ (o k : ℕ). slice o k xs) {x = suc off + m} {y = off + suc m} {u = n - m}
        {v = suc n - suc m} (omega arith) (omega arith)

-- Up to its end a write is what stood before it and what it wrote.
pub take-write_at :
    (xs : List ℕ) (i : ℕ) (ys : List ℕ)
    → i + length ys ≤ length xs
    → take (i + length ys) (write_at xs i ys) ≡ take i xs ++ ys
take-write_at xs i ys fits =
    sym (slice-zero (i + length ys) (write_at xs i ys) (omega (arith, length-write_at xs i ys)))
    ∙ slice-add 0 i (length ys) (write_at xs i ys)
    ∙ ap₂ ◌++◌ (slice-write_at_before 0 i xs i ys (omega arith) ∙ slice-zero i xs (omega arith)) (
        ap (λ (o : ℕ). slice o (length ys) (write_at xs i ys)) {x = 0 + i} {y = i} (omega arith)
        ∙ slice-write_at xs i ys (length ys) (omega arith) fits
        ∙ slice-whole ys)
