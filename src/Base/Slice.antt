-- ===== src/Base/Slice.antt =====
-- The bytes of a buffer from an index on.
use open_pgpcard_emu.Base.{
  ℕ, zero, suc, ◌+◌, ◌≤◌, ◌<◌, ◌≡◌, ◌≢◌, refl, ap, ap₂, ◌∙◌, List, [], ◌∷◌, ◌++◌, arith, get_or,
  set, take, length, get_or-set_ne, length-append, take-append,
}

-- `n` bytes from index `off` on.
unfoldable pub slice : ℕ → ℕ → List ℕ → List ℕ
slice off zero xs = []
slice off (suc n) xs = get_or xs off 0 ∷ slice (suc off) n xs

pub length-slice : (off n : ℕ) (xs : List ℕ) → length (slice off n xs) ≡ n
unfolding slice
length-slice off zero xs = refl
length-slice off (suc n) xs = ap suc (length-slice (suc off) n xs)

-- Slices that agree byte by byte are equal.
pub slice-eq :
    (a b n : ℕ) (xs ys : List ℕ)
    → ((i : ℕ) → i < n → get_or xs (a + i) 0 ≡ get_or ys (b + i) 0)
    → slice a n xs ≡ slice b n ys
unfolding slice
slice-eq a b zero xs ys h = refl
slice-eq a b (suc n) xs ys h =
    ap₂ ◌∷◌
      (ap (λ k. get_or xs k 0) (omega arith)
        ∙ h 0 (omega arith)
        ∙ ap (λ k. get_or ys k 0) (omega arith))
      (slice-eq (suc a) (suc b) n xs ys (λ i lt.
        ap (λ k. get_or xs k 0) (omega arith)
        ∙ h (suc i) (omega arith)
        ∙ ap (λ k. get_or ys k 0) (omega arith)))

slice-tail : (off n x : ℕ) (xs : List ℕ) → slice (suc off) n (x ∷ xs) ≡ slice off n xs
unfolding slice
slice-tail off zero x xs = refl
slice-tail off (suc n) x xs = ap (◌∷◌ (get_or xs off 0)) (slice-tail (suc off) n x xs)

pub slice-zero : (n : ℕ) (xs : List ℕ) → n ≤ length xs → slice 0 n xs ≡ take n xs
unfolding slice
slice-zero zero xs h = refl
slice-zero (suc n) [] h = absurd (omega arith)
slice-zero (suc n) (x ∷ xs) h = ap (◌∷◌ x) (slice-tail 0 n x xs ∙ slice-zero n xs (omega arith))

pub slice-snoc :
    (off n : ℕ) (xs : List ℕ) → slice off (suc n) xs ≡ slice off n xs ++ get_or xs (off + n) 0 ∷ []
unfolding slice
slice-snoc off zero xs = ap (λ k. get_or xs k 0 ∷ []) (omega arith)
slice-snoc off (suc n) xs =
    ap (◌∷◌ (get_or xs off 0)) (
      slice-snoc (suc off) n xs
      ∙ ap (λ k. slice (suc off) n xs ++ get_or xs k 0 ∷ []) (omega arith))

-- A write outside the slice leaves it.
pub slice-set_ne :
    (off n i v : ℕ) (xs : List ℕ)
    → ((k : ℕ) → k < n → i ≢ off + k)
    → slice off n (set xs i v) ≡ slice off n xs
slice-set_ne off n i v xs h =
    slice-eq off off n (set xs i v) xs (λ k lt. get_or-set_ne xs i (off + k) v 0 (h k lt))

-- The middle of three lists, and what stands behind the first.
pub slice-append : (xs ys zs : List ℕ) → slice (length xs) (length ys) (xs ++ (ys ++ zs)) ≡ ys
slice-append [] ys zs =
    slice-zero (length ys) (ys ++ zs) (omega (arith, length-append ys zs)) ∙ take-append ys zs
slice-append (x ∷ xs) ys zs =
    slice-tail (length xs) (length ys) x (xs ++ (ys ++ zs)) ∙ slice-append xs ys zs
