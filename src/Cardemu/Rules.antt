-- ===== src/Cardemu/Rules.antt =====
-- How a property of every try of a command in OpenCTDriver/src/ifd/ifd-cardemu.c becomes a property
-- of the `while` loop with its RUN_RESYNC steps.
use open_pgpcard_emu.Base.{ℕ, zero, suc, ◌≡◌, refl, Bool, true, false}
use open_pgpcard_emu.Base.Run.{Run, Result, ok, err, and_then, ◌>>=◌, require}
use open_pgpcard_emu.Cardemu.Session.{Host, Session, Failure, outer, inner, overrun, no_fuel}
use open_pgpcard_emu.Cardemu.Resync.{resync}
use open_pgpcard_emu.Cardemu.Retry.{
  Outcome, done, broke_outer, broke_inner, exhausted, overran, unfinished, after_resync, after_try,
  retry, is_fatal,
}

-- An outcome with this property of its result, if it has one.
abbrev pub Holds : {A : Type 0} → (A → Type 0) → Outcome A → Type 0
Holds P (done a) = P a
Holds P broke_outer = Unit
Holds P broke_inner = Unit
Holds P exhausted = Unit
Holds P overran = Unit
Holds P unfinished = Unit

-- A try that ends well ends with the property.
abbrev pub Ends : {A : Type 0} → (A → Type 0) → Result Failure A → Type 0
Ends P (ok a) = P a
Ends P (err e) = Unit

-- No write behind an array, and enough fuel.
abbrev pub IsSound : {A : Type 0} → Result Failure A → Type 0
IsSound (ok a) = Unit
IsSound (err e) = is_fatal e ≡ false

abbrev pub IsFollowed : {A : Type 0} → Outcome A → Type 0
IsFollowed overran = ⊥
IsFollowed unfinished = ⊥
IsFollowed _ = Unit

module _ {S : Type 0} (host : Host S) where
  after_resync-Holds :
      {A : Type 0} (P : A → Type 0) (b : Bool) (e : Failure) (s : Session S)
      (next : Session S → Outcome A × Session S)
      → is_fatal e ≡ false
      → ((t : Session S) → Holds P (next t).0)
      → Holds P (after_resync host b e s next).0
  unfolding after_resync
  after_resync-Holds P true e s next plain rest = rest s
  after_resync-Holds P false outer s next plain rest = tt
  after_resync-Holds P false inner s next plain rest = tt
  after_resync-Holds P false overrun s next plain rest = tt
  after_resync-Holds P false no_fuel s next plain rest = tt

  after_resync-IsFollowed :
      {A : Type 0} (b : Bool) (e : Failure) (s : Session S)
      (next : Session S → Outcome A × Session S)
      → is_fatal e ≡ false
      → ((t : Session S) → IsFollowed (next t).0)
      → IsFollowed (after_resync host b e s next).0
  unfolding after_resync
  after_resync-IsFollowed true e s next plain rest = rest s
  after_resync-IsFollowed false outer s next plain rest = tt
  after_resync-IsFollowed false inner s next plain rest = tt
  after_resync-IsFollowed false overrun s next plain rest = cc
  after_resync-IsFollowed false no_fuel s next plain rest = cc

  after_try-Holds :
      {A : Type 0} (P : A → Type 0) (r : Result Failure A) (s : Session S)
      (next : Session S → Outcome A × Session S)
      → Ends P r
      → ((t : Session S) → Holds P (next t).0)
      → Holds P (after_try host r s next).0
  unfolding after_try
  after_try-Holds P (ok a) s next ends rest = ends
  after_try-Holds P (err overrun) s next ends rest = tt
  after_try-Holds P (err no_fuel) s next ends rest = tt
  after_try-Holds P (err outer) s next ends rest =
      after_resync-Holds P (resync host s.port).0 outer _ next refl rest
  after_try-Holds P (err inner) s next ends rest =
      after_resync-Holds P (resync host s.port).0 inner _ next refl rest

  -- What every try that ends well establishes, the loop establishes.
  pub retry-Holds :
      {A : Type 0} (P : A → Type 0) (body : Run (Session S) Failure A)
      → ((s : Session S) → Ends P (body s).0)
      → (n : ℕ) (s : Session S) → Holds P (retry host n body s).0
  unfolding retry
  retry-Holds P body ends zero s = tt
  retry-Holds P body ends (suc n) s =
      after_try-Holds P (body s).0 (body s).1 (retry host n body) (ends s)
        (retry-Holds P body ends n)

  after_try-IsFollowed :
      {A : Type 0} (r : Result Failure A) (s : Session S) (next : Session S → Outcome A × Session S)
      → IsSound r
      → ((t : Session S) → IsFollowed (next t).0)
      → IsFollowed (after_try host r s next).0
  unfolding after_try
  after_try-IsFollowed (ok a) s next sound rest = tt
  after_try-IsFollowed (err overrun) s next sound rest = cc
  after_try-IsFollowed (err no_fuel) s next sound rest = cc
  after_try-IsFollowed (err outer) s next sound rest =
      after_resync-IsFollowed (resync host s.port).0 outer _ next refl rest
  after_try-IsFollowed (err inner) s next sound rest =
      after_resync-IsFollowed (resync host s.port).0 inner _ next refl rest

  pub retry-IsFollowed :
      {A : Type 0} (body : Run (Session S) Failure A)
      → ((s : Session S) → IsSound (body s).0)
      → (n : ℕ) (s : Session S) → IsFollowed (retry host n body s).0
  unfolding retry
  retry-IsFollowed body sound zero s = tt
  retry-IsFollowed body sound (suc n) s =
      after_try-IsFollowed (body s).0 (body s).1 (retry host n body) (sound s)
        (retry-IsFollowed body sound n)

  -- The result of a bind ends well if the rest does from every state and value.
  pub bind-Ends :
      {A B : Type 0} (P : B → Type 0) (m : Run (Session S) Failure A)
      (k : A → Run (Session S) Failure B)
      → ((a : A) (s : Session S) → Ends P (k a s).0)
      → (s : Session S) → Ends P ((m >>= k) s).0
  bind-Ends P m k rest s = after (m s).0 (m s).1
    where
      after : (r : Result Failure _) (t : Session S) → Ends P (and_then r t k).0
      after (ok a) t = rest a t
      after (err e) t = tt

  pub bind-IsSound :
      {A B : Type 0} (m : Run (Session S) Failure A) (k : A → Run (Session S) Failure B)
      → ((s : Session S) → IsSound (m s).0)
      → ((a : A) (s : Session S) → IsSound (k a s).0)
      → (s : Session S) → IsSound ((m >>= k) s).0
  bind-IsSound m k first rest s = after (m s).0 (m s).1 (first s)
    where
      after : (r : Result Failure _) (t : Session S) → IsSound r → IsSound (and_then r t k).0
      after (ok a) t sound = rest a t
      after (err e) t sound = sound

  pub require-IsSound :
      (b : Bool) (e : Failure) (s : Session S) → is_fatal e ≡ false → IsSound (require b e s).0
  require-IsSound true e s h = tt
  require-IsSound false e s h = h
