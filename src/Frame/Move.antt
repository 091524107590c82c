-- ===== src/Frame/Move.antt =====
-- The copying of the payload, which may overlap the message that it is copied into.
use open_pgpcard_emu.Base.{
  ℕ, zero, suc, ◌+◌, ◌≤◌, ◌<◌, ◌≡◌, refl, ◌∙◌, sym, ap, List, arith, ltb, ◌==◌, get_or, set, length,
  length-set, length-append, length-drop, drop, [], ◌∷◌, ◌++◌, get_or-set_self, get_or-set_ne,
  Bool-cases, inl, inr,
}
use open_pgpcard_emu.Frame.{
  copy_up, copy_down, copy_from, place_payload, Payload, inside, before, outside,
}
use open_pgpcard_emu.Base.Slice.{slice, slice-eq}

pub length-copy_up : (n i off : ℕ) (buff : List ℕ) → length (copy_up n i off buff) ≡ length buff
unfolding copy_up
length-copy_up zero i off buff = refl
length-copy_up (suc n) i off buff =
    length-copy_up n (suc i) off (set buff (1 + i) (get_or buff (off + i) 0))
    ∙ length-set buff (1 + i) (get_or buff (off + i) 0)

pub length-copy_down : (n to off : ℕ) (mem : List ℕ) → length (copy_down n to off mem) ≡ length mem
unfolding copy_down
length-copy_down zero to off mem = refl
length-copy_down (suc i) to off mem =
    length-copy_down i to off (set mem (to + i) (get_or mem (off + i) 0))
    ∙ length-set mem (to + i) (get_or mem (off + i) 0)

pub length-copy_from : (n i : ℕ) (src buff : List ℕ) → length (copy_from n i src buff) ≡ length buff
unfolding copy_from
length-copy_from zero i src buff = refl
length-copy_from (suc n) i src buff =
    length-copy_from n (suc i) src (set buff (1 + i) (get_or src i 0))
    ∙ length-set buff (1 + i) (get_or src i 0)

-- Bytes before the copied range stay.
copy_up-before :
    (n i off j : ℕ) (buff : List ℕ)
    → j < 1 + i
    → get_or (copy_up n i off buff) j 0 ≡ get_or buff j 0
unfolding copy_up
copy_up-before zero i off j buff h = refl
copy_up-before (suc n) i off j buff h =
    copy_up-before n (suc i) off j (set buff (1 + i) (get_or buff (off + i) 0)) (omega arith)
    ∙ get_or-set_ne buff (1 + i) j (get_or buff (off + i) 0) 0 (omega arith)

-- Upwards from a higher index: every byte is read before it is written over.
copy_up-moves :
    (n i off k : ℕ) (buff : List ℕ)
    → 1 < off
    → 1 + i + n ≤ length buff
    → i ≤ k
    → k < i + n
    → get_or (copy_up n i off buff) (1 + k) 0 ≡ get_or buff (off + k) 0
unfolding copy_up
copy_up-moves zero i off k buff up fits lo hi = absurd (omega arith)
copy_up-moves (suc n) i off k buff up fits lo hi = elim (Bool-cases (k == i)) [
  | inl here ↦
      let e : k ≡ i = ground arith in
      copy_up-before n (suc i) off (1 + k) (set buff (1 + i) v) (omega arith)
      ∙ ap (λ t. get_or (set buff (1 + i) v) (1 + t) 0) e
      ∙ get_or-set_self buff (1 + i) v 0 (omega arith)
      ∙ ap (λ t. get_or buff (off + t) 0) (sym e)
  | inr later ↦
      copy_up-moves n (suc i) off k (set buff (1 + i) v) up
        (omega (arith, length-set buff (1 + i) v)) (ground arith) (omega arith)
      ∙ get_or-set_ne buff (1 + i) (off + k) v 0 (omega arith)
]
  where
    v : ℕ
    v = get_or buff (off + i) 0

copy_down-after :
    (n to off j : ℕ) (mem : List ℕ)
    → to + n ≤ j
    → get_or (copy_down n to off mem) j 0 ≡ get_or mem j 0
unfolding copy_down
copy_down-after zero to off j mem h = refl
copy_down-after (suc i) to off j mem h =
    copy_down-after i to off j (set mem (to + i) (get_or mem (off + i) 0)) (omega arith)
    ∙ get_or-set_ne mem (to + i) j (get_or mem (off + i) 0) 0 (omega arith)

-- Downwards from a lower index: every byte is read before it is written over.
copy_down-moves :
    (n to off k : ℕ) (mem : List ℕ)
    → off < to
    → to + n ≤ length mem
    → k < n
    → get_or (copy_down n to off mem) (to + k) 0 ≡ get_or mem (off + k) 0
unfolding copy_down
copy_down-moves zero to off k mem down fits hi = absurd (omega arith)
copy_down-moves (suc i) to off k mem down fits hi = elim (Bool-cases (k == i)) [
  | inl here ↦
      let e : k ≡ i = ground arith in
      copy_down-after i to off (to + k) (set mem (to + i) v) (omega arith)
      ∙ ap (λ t. get_or (set mem (to + i) v) (to + t) 0) e
      ∙ get_or-set_self mem (to + i) v 0 (omega arith)
      ∙ ap (λ t. get_or mem (off + t) 0) (sym e)
  | inr lower ↦
      let lt : k < i = ground arith in
      copy_down-moves i to off k (set mem (to + i) v) down
        (omega (arith, length-set mem (to + i) v)) lt
      ∙ get_or-set_ne mem (to + i) (off + k) v 0 (omega arith)
]
  where
    v : ℕ
    v = get_or mem (off + i) 0

get_or-drop : (xs : List ℕ) (k i : ℕ) → get_or (drop k xs) i 0 ≡ get_or xs (k + i) 0
get_or-drop xs zero i = ap (λ (j : ℕ). get_or xs j 0) {x = i} {y = 0 + i} (omega arith)
get_or-drop [] (suc k) i = refl
get_or-drop (x ∷ xs) (suc k) i =
    get_or-drop xs k i
    ∙ ap (λ j. get_or (x ∷ xs) j 0) {x = suc (k + i)} {y = suc k + i} (omega arith)

copy_from-before :
    (n i j : ℕ) (src buff : List ℕ)
    → j < 1 + i
    → get_or (copy_from n i src buff) j 0 ≡ get_or buff j 0
unfolding copy_from
copy_from-before zero i j src buff h = refl
copy_from-before (suc n) i j src buff h =
    copy_from-before n (suc i) j src (set buff (1 + i) (get_or src i 0)) (omega arith)
    ∙ get_or-set_ne buff (1 + i) j (get_or src i 0) 0 (omega arith)

copy_from-moves :
    (n i k : ℕ) (src buff : List ℕ)
    → 1 + i + n ≤ length buff
    → i ≤ k
    → k < i + n
    → get_or (copy_from n i src buff) (1 + k) 0 ≡ get_or src k 0
unfolding copy_from
copy_from-moves zero i k src buff fits lo hi = absurd (omega arith)
copy_from-moves (suc n) i k src buff fits lo hi = elim (Bool-cases (k == i)) [
  | inl here ↦
      let e : k ≡ i = ground arith in
      copy_from-before n (suc i) (1 + k) src (set buff (1 + i) v) (omega arith)
      ∙ ap (λ t. get_or (set buff (1 + i) v) (1 + t) 0) e
      ∙ get_or-set_self buff (1 + i) v 0 (omega arith)
      ∙ ap (λ t. get_or src t 0) (sym e)
  | inr later ↦
      copy_from-moves n (suc i) k src (set buff (1 + i) v)
        (omega (arith, length-set buff (1 + i) v)) (ground arith) (omega arith)
]
  where
    v : ℕ
    v = get_or src i 0

-- What the payload holds before the copy.
abbrev pub payload_bytes : Payload → ℕ → List ℕ → List ℕ
payload_bytes (inside off) n buff = slice off n buff
payload_bytes (before front) n buff = slice 0 n (front ++ buff)
payload_bytes (outside src) n buff = slice 0 n src

pub length-place_payload :
    (p : Payload) (n : ℕ) (buff : List ℕ) → length (place_payload p n buff) ≡ length buff
unfolding place_payload
length-place_payload (outside src) n buff = length-copy_from n 0 src buff
length-place_payload (inside off) n buff =
    ground (arith, length-copy_up n 0 off buff, length-copy_down n 1 off buff)
length-place_payload (before front) n buff =
    let mem = copy_down n (length front + 1) 0 (front ++ buff) in
    omega (
      arith,
      length-drop (length front) mem,
      length-copy_down n (length front + 1) 0 (front ++ buff),
      length-append front buff,
    )

-- Wherever the payload lies, overlapping the message or not, the message gets the bytes that the
-- payload held before the copy.
pub place_payload-moves :
    (p : Payload) (n : ℕ) (buff : List ℕ)
    → 1 + n ≤ length buff
    → slice 1 n (place_payload p n buff) ≡ payload_bytes p n buff
unfolding place_payload
place_payload-moves (outside src) n buff fits = slice-eq 1 0 n (copy_from n 0 src buff) src (λ i lt.
    copy_from-moves n 0 i src buff (omega arith) (omega arith) (omega arith)
    ∙ ap (λ k. get_or src k 0) (omega arith))
place_payload-moves (inside off) n buff fits = elim (Bool-cases (off == 1)) [
  | inl own ↦ rw own (let e : off ≡ 1 = ground arith in rw e)
  | inr other ↦ rw other (elim (Bool-cases (ltb 1 off)) [
    | inl up ↦ rw up (
        slice-eq 1 off n (copy_up n 0 off buff) buff (λ i lt.
          copy_up-moves n 0 off i buff (ground arith) (omega arith) (omega arith) (omega arith)))
    | inr down ↦ rw down (
        let below : off < 1 = ground arith in
        slice-eq 1 off n (copy_down n 1 off buff) buff
          (λ i lt. copy_down-moves n 1 off i buff below fits lt))
  ])
]
place_payload-moves (before front) n buff fits =
    let k = length front in
    let mem = front ++ buff in
    let moved = copy_down n (k + 1) 0 mem in
    slice-eq 1 0 n (drop k moved) mem (λ i lt.
      get_or-drop moved k (1 + i)
      ∙ ap (λ (j : ℕ). get_or moved j 0) {x = k + (1 + i)} {y = k + 1 + i} (omega arith)
      ∙ copy_down-moves n (k + 1) 0 i mem (omega arith) (omega (arith, length-append front buff))
          lt)
