-- ===== src/Locks/Exclusion.antt =====
-- That the locks of OpenCTDriver/src/ifd/locks.c exclude what they are to exclude.
use open_pgpcard_emu.Base.{
  ℕ, ◌≡◌, ◌≢◌, refl, sym, ◌∙◌, ap, ap₂, Bool, true, false, ◌&&◌, List, [], ◌∷◌, All, Bool-cases,
  inl, inr, arith, ◌==◌, ==_refl, if◌then◌else◌, ℤ, pos, negsuc,
}
use open_pgpcard_emu.Locks.{
  Lock, Client, Table, conflicts, check_lock, granted, grant, after_check, lock, matches,
  unlock_from, unlock, keep_others, unlock_all, error_locked,
}

-- Two locks on one slot that different sockets hold are both shared, and of the same user.
abbrev pub IsCompatible : Lock → Lock → Type 0
IsCompatible l m =
    l.slot ≡ m.slot
    → l.owner ≢ m.owner
    → (l.exclusive ≡ false) × (m.exclusive ≡ false) × (l.uid ≡ m.uid)

-- Any two locks of the list are compatible.
abbrev pub IsExclusive : List Lock → Type 0
IsExclusive [] = Unit
IsExclusive (l ∷ locks) = All (IsCompatible l) locks × IsExclusive locks

-- The states that the calls of the clients lead to.
pub data Reachable : Table → Type 0 where
  start : Reachable (record { locks = []; lock_handle = 0 })
  on_lock :
      {t : Table} (memory : Bool) (sock : Client) (slot type old : ℕ)
      → Reachable t
      → Reachable (lock memory sock slot type old t).1
  on_unlock :
      {t : Table} (sock : Client) (slot handle : ℕ)
      → Reachable t
      → Reachable (unlock sock slot handle t).1
  on_close : {t : Table} (sock : Client) → Reachable t → Reachable (unlock_all sock t)

-- A lock in whose way nothing stands is compatible with the one that is granted.
granted-IsCompatible :
    (sock : Client) (slot type handle : ℕ) (l : Lock)
    → conflicts sock slot type l ≡ false
    → IsCompatible (granted sock slot type handle) l
unfolding conflicts granted
granted-IsCompatible sock slot type handle l free same other = elim (Bool-cases l.exclusive) [
  | inl alone ↦ absurd (ground (arith, free, alone, same))
  | inr shared ↦ (ground (arith, free), shared, ground (arith, free, shared))
]

negsuc-ne-pos : (n : ℕ) → negsuc n ≢ pos 0
negsuc-ne-pos n e = cc

pos-ne-locked : (n : ℕ) → pos n ≢ error_locked
pos-ne-locked n e = cc

granted-All :
    (sock : Client) (slot type handle n : ℕ) (locks : List Lock)
    → check_lock sock slot type locks ≡ pos n
    → All (IsCompatible (granted sock slot type handle)) locks
unfolding check_lock
granted-All sock slot type handle n [] h = tt
granted-All sock slot type handle n (l ∷ locks) h = elim (Bool-cases (conflicts sock slot type l)) [
  | inl taken ↦ absurd (pos-ne-locked n (sym h ∙ rw (taken, check_lock) refl))
  | inr free ↦ (
    granted-IsCompatible sock slot type handle l free,
    granted-All sock slot type handle n locks
        (sym (ap (λ b. if b then error_locked else check_lock sock slot type locks) free) ∙ h),
  )
]

keep_others-All :
    (P : Lock → Type 0) (sock : Client) (locks : List Lock)
    → All P locks
    → All P (keep_others sock locks)
unfolding keep_others
keep_others-All P sock [] h = tt
keep_others-All P sock (l ∷ locks) (p, ps) = elim (Bool-cases (l.owner == sock.address)) [
  | inl own ↦ rw (own, keep_others) (keep_others-All P sock locks ps)
  | inr other ↦ rw (other, keep_others) (p, keep_others-All P sock locks ps)
]

keep_others-IsExclusive :
    (sock : Client) (locks : List Lock) → IsExclusive locks → IsExclusive (keep_others sock locks)
unfolding keep_others
keep_others-IsExclusive sock [] h = tt
keep_others-IsExclusive sock (l ∷ locks) (p, ps) = elim (Bool-cases (l.owner == sock.address)) [
  | inl own ↦ rw (own, keep_others) (keep_others-IsExclusive sock locks ps)
  | inr other ↦
      rw (other, keep_others)
        (keep_others-All (IsCompatible l) sock locks p, keep_others-IsExclusive sock locks ps)
]

unlock_from-All :
    (P : Lock → Type 0) (sock : Client) (slot handle : ℕ) (locks : List Lock)
    → All P locks
    → All P (unlock_from sock slot handle locks).1
unfolding unlock_from
unlock_from-All P sock slot handle [] h = tt
unlock_from-All P sock slot handle (l ∷ locks) (p, ps) =
    elim (Bool-cases (matches sock slot handle l)) [
      | inl here ↦ rw (here, unlock_from) ps
      | inr later ↦ rw (later, unlock_from) (p, unlock_from-All P sock slot handle locks ps)
    ]

unlock_from-IsExclusive :
    (sock : Client) (slot handle : ℕ) (locks : List Lock)
    → IsExclusive locks
    → IsExclusive (unlock_from sock slot handle locks).1
unfolding unlock_from
unlock_from-IsExclusive sock slot handle [] h = tt
unlock_from-IsExclusive sock slot handle (l ∷ locks) (p, ps) =
    elim (Bool-cases (matches sock slot handle l)) [
      | inl here ↦ rw (here, unlock_from) ps
      | inr later ↦
          rw (later, unlock_from)
            (
              unlock_from-All (IsCompatible l) sock slot handle locks p,
              unlock_from-IsExclusive sock slot handle locks ps,
            )
    ]

after_check-IsExclusive :
    (code : ℤ) (memory : Bool) (sock : Client) (slot type old : ℕ) (t : Table)
    → check_lock sock slot type t.locks ≡ code
    → IsExclusive t.locks
    → IsExclusive (after_check code memory sock slot type old t).1.locks
unfolding after_check grant
after_check-IsExclusive (pos n) false sock slot type old t e h = h
after_check-IsExclusive (pos n) true sock slot type old t e h =
    (granted-All sock slot type t.lock_handle n t.locks e, h)
after_check-IsExclusive (negsuc n) memory sock slot type old t e h = h

-- Whatever the clients lock, unlock and close, in whatever order, any two locks on one slot that
-- different sockets hold are both shared and of the same user: an exclusive lock is alone on its slot
-- but for locks of its own socket.
pub Reachable-IsExclusive : (t : Table) → Reachable t → IsExclusive t.locks
unfolding lock unlock unlock_all
Reachable-IsExclusive t start = tt
Reachable-IsExclusive t (on_lock {t = before} memory sock slot type old reached) =
    after_check-IsExclusive (check_lock sock slot type before.locks) memory sock slot type old
      before refl (Reachable-IsExclusive before reached)
Reachable-IsExclusive t (on_unlock {t = before} sock slot handle reached) =
    unlock_from-IsExclusive sock slot handle before.locks (Reachable-IsExclusive before reached)
Reachable-IsExclusive t (on_close {t = before} sock reached) =
    keep_others-IsExclusive sock before.locks (Reachable-IsExclusive before reached)

matches-granted :
    (sock : Client) (slot type handle : ℕ)
    → matches sock slot handle (granted sock slot type handle) ≡ true
unfolding matches granted
matches-granted sock slot type handle =
    ap₂ ◌&&◌ (==_refl sock.address) (ap₂ ◌&&◌ (==_refl slot) (==_refl handle))

unlock-after_check :
    (code : ℤ) (sock : Client) (slot type old : ℕ) (t : Table)
    → (after_check code true sock slot type old t).0.code ≡ pos 0
    → let (g, t') = after_check code true sock slot type old t in
      ((unlock sock slot g.res t').0 ≡ pos 0) × ((unlock sock slot g.res t').1.locks ≡ t.locks)
unfolding after_check grant unlock unlock_from
unlock-after_check (pos n) sock slot type old t ok =
    rw (matches-granted sock slot type t.lock_handle, unlock_from) (refl, refl)
unlock-after_check (negsuc n) sock slot type old t ok = absurd (negsuc-ne-pos n ok)

-- A lock that is granted is released by its handle: `ifdhandler_unlock` of the same socket and slot
-- with the handle that `ifdhandler_lock` stored returns 0, and the locks are those from before.
pub unlock-lock :
    (sock : Client) (slot type old : ℕ) (t : Table)
    → (lock true sock slot type old t).0.code ≡ pos 0
    → let (g, t') = lock true sock slot type old t in
      ((unlock sock slot g.res t').0 ≡ pos 0) × ((unlock sock slot g.res t').1.locks ≡ t.locks)
unfolding lock unlock
unlock-lock sock slot type old t granted_code =
    unlock-after_check (check_lock sock slot type t.locks) sock slot type old t granted_code
