-- ===== src/Atr/Pts.antt =====
-- The protocol selection: what is asked for, and what is taken as the card's agreement.
use open_pgpcard_emu.Base.{
  ℕ, ◌-◌, ◌<◌, ◌≡◌, refl, subst, Bool, true, false, not, ◌&&◌, List, [], ◌∷◌, arith, ℤ, pos, negsuc,
  ltb, ◌==◌, length, get_or, take,
}
use open_pgpcard_emu.Base.Bits.{all_below, all_below_sound}
use open_pgpcard_emu.Atr.{
  AtrInfo, absent, ta0, tc0, is_present, is_255, same_value, is_even_or_absent, xor_all,
  pts_request, build_pts, pts_fields, verify_pts, pts_complete,
}

-- TA1 as `ifd_atr_parse` leaves it: a byte, or -1.
abbrev pub IsField : ℤ → Type 0
IsField (pos b) = b < 256
IsField (negsuc n) = n ≡ 0

-- The tests of `ifd_verify_pts`, all passed.
accepts : ℤ → Bool → List ℕ → Bool
accepts ta with_tc buf =
    let (ptsr, n) = pts_fields 3 0 2 buf (absent ∷ absent ∷ absent ∷ []) in
    ((not (ltb (length buf) 3) && get_or buf 0 0 == 0xFF) && xor_all 0 buf == 0)
    && ((not (ltb n (length buf - 1))
          && not (is_present ta && not (same_value (get_or ptsr 0 absent) ta)))
        && not (with_tc && is_even_or_absent (get_or ptsr 1 absent)))

verify-accepts :
    (info : AtrInfo) (buf : List ℕ)
    → accepts (ta0 info) (is_255 (tc0 info)) buf ≡ true
    → verify_pts info buf ≡ (pos 0, info)
unfolding verify_pts accepts
verify-accepts info buf h = ground arith

-- Both properties of the request, for a test of all its forms.
form_test : ℤ → Bool → ℕ → Bool
form_test ta with_tc p =
    let w = pts_request ta with_tc p in accepts ta with_tc w && pts_complete (take (length w - 1) w)

with_ta_table : (b : Bool) → all_below 16 (λ p. all_below 256 (λ a. form_test (pos a) b p)) ≡ true
unfolding all_below form_test accepts pts_fields pts_request pts_complete
with_ta_table true = refl
with_ta_table false = refl

no_ta_table : (b : Bool) → all_below 16 (λ p. form_test absent b p) ≡ true
unfolding all_below form_test accepts pts_fields pts_request pts_complete
no_ta_table true = refl
no_ta_table false = refl

form_checked : (ta : ℤ) (b : Bool) (p : ℕ) → IsField ta → p < 16 → form_test ta b p ≡ true
form_checked (pos a) b p ha hp =
    all_below_sound 256 (λ x. form_test (pos x) b p) a
      (all_below_sound 16 (λ q. all_below 256 (λ x. form_test (pos x) b q)) p (with_ta_table b) hp)
      ha
form_checked (negsuc n) b p ha hp =
    rw ha (all_below_sound 16 (λ q. form_test absent b q) p (no_ta_table b) hp)

-- A card that echoes the request that `ifd_build_pts` made for a protocol below 16 is taken by
-- `ifd_verify_pts` as agreeing, and the analysis of the answer to reset stays as it is.
pub verify-build :
    (info : AtrInfo) (p len n : ℕ) (pts : List ℕ)
    → IsField (ta0 info)
    → p < 16
    → build_pts info p len ≡ (pos n, pts)
    → verify_pts info pts ≡ (pos 0, info)
unfolding build_pts form_test
verify-build info p len n pts ta hp e =
    let with_tc = is_255 (tc0 info) in
    let built : pts_request (ta0 info) with_tc p ≡ pts = ground arith in
    subst (λ w. verify_pts info w ≡ (pos 0, info)) built
      (verify-accepts info (pts_request (ta0 info) with_tc p)
        (ground (arith, form_checked (ta0 info) with_tc p ta hp)))

-- `ifd_pts_complete` takes an echo of the request for complete when its last byte, the check byte,
-- has not come yet: `j = +ifd_count_bits(…)` forgets the two bytes before the fields.
pub pts_complete-early :
    (info : AtrInfo) (p len n : ℕ) (pts : List ℕ)
    → IsField (ta0 info)
    → p < 16
    → build_pts info p len ≡ (pos n, pts)
    → pts_complete (take (length pts - 1) pts) ≡ true
unfolding build_pts form_test
pts_complete-early info p len n pts ta hp e =
    let with_tc = is_255 (tc0 info) in
    let built : pts_request (ta0 info) with_tc p ≡ pts = ground arith in
    subst (λ w. pts_complete (take (length w - 1) w) ≡ true) built
      (ground (arith, form_checked (ta0 info) with_tc p ta hp))
